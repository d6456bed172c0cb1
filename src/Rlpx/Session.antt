-- ===== src/Rlpx/Session.antt =====
-- rlpx/session.go, and the protocol handshake of rlpx/handshake.go: the state of a session. The
-- connection takes all that is written, and what is read from it is an argument. The locks, the
-- deadlines and the timers are left out: the time-out of a pong is the call of `exit_err` with
-- disc_protocol_error.
pub mod Negotiate
pub mod Shutdown
pub mod Handshake
pub mod Write
use go_devp2p.Prelude.{
  ℕ, zero, suc, ◌+◌, ◌*◌, ◌%◌, ◌≤◌, ◌<◌, ◌≡◌, Bool, true, false, not, ◌&&◌, Option, none, some,
  List, [], ◌∷◌, ◌++◌, map, Bytes, length, leb, ltb, ◌==◌, bytes_eq, all_zero, if◌then◌else◌,
  Result, ok, err, ◌>>=◌, ◌>>◌, guard,
}
use go_devp2p.Rlp.{Rlp, CodecError, Decoded}
use go_devp2p.Rlpx.Messages.{Cap, Info, decode_disc_msg, disc_unknown, marshal_info, unmarshal_info}
use go_devp2p.Rlpx.Frame.{Primitives, HalfConn, FrameError, panic, read, write}
use go_devp2p.Rlpx.Stream.{ProtocolSpec, Stream, new_stream, read_data}

-- The errors of a session: a DiscReason is an error, too.
pub data SessionError : Type 0 where
  stream_closed : SessionError
  frame : FrameError → SessionError
  reason : ℕ → SessionError
  no_matching_protocols message_too_big disconnected not_handshake id_mismatch panicked :
      SessionError
  codec : CodecError → SessionError

abbrev pub base_protocol_length : ℕ
base_protocol_length = 16

abbrev pub base_protocol_max_msg_size : ℕ
base_protocol_max_msg_size = 2 * 1024

abbrev pub snappy_protocol_version : ℕ
snappy_protocol_version = 5

abbrev pub handshake_msg : ℕ
handshake_msg = 0x00

abbrev pub disc_msg : ℕ
disc_msg = 0x01

abbrev pub ping_msg : ℕ
ping_msg = 0x02

abbrev pub pong_msg : ℕ
pong_msg = 0x03

abbrev pub disc_protocol_error : ℕ
disc_protocol_error = 2

abbrev pub disc_invalid_identity : ℕ
disc_invalid_identity = 7

abbrev pub disc_quitting : ℕ
disc_quitting = 8

-- `closed` is the state sessionClosed, `conn_closed` whether the connection is closed, `sent` what
-- was written to it, and `stream_errors` what the errorCh of each stream holds.
pub record Session : Type 0 where
  pub streams : List Stream
  pub stream_errors : List (Option SessionError)
  pub shutdown : Bool
  pub shutdown_err : Option SessionError
  pub closed : Bool
  pub conn_closed : Bool
  pub half_in : HalfConn
  pub half_out : HalfConn
  pub sent : Bytes

-- Session.SetSnappy
unfoldable pub set_snappy : Session → Session
set_snappy s = record s {
  half_in = record (s.half_in) { snappy = true };
  half_out = record (s.half_out) { snappy = true };
}

-- Rlpx.getProtocol, on the specifications of the backends
unfoldable pub get_protocol : List ProtocolSpec → Bytes → ℕ → Option ProtocolSpec
get_protocol [] name version = none
get_protocol (p ∷ ps) name version =
    let rest = get_protocol ps name version in
    if bytes_eq p.name name && p.version == version then some p else rest

-- Session.OpenStream
unfoldable pub open_stream : Session → ℕ → ℕ → ProtocolSpec → Session
open_stream s offset length spec = record s {
  streams = s.streams ++ (new_stream offset length spec ∷ []);
  stream_errors = s.stream_errors ++ (none ∷ []);
}

-- Session.negotiateProtocols: the loop over the remote capabilities from an offset on. An offset is
-- a uint64 that is not wrapped here: the lengths of the local protocols are far from 2 ^ 64.
unfoldable pub negotiate_loop : List ProtocolSpec → Session → ℕ → List Cap → Session
negotiate_loop backends s offset [] = s
negotiate_loop backends s offset (c ∷ cs) = elim (get_protocol backends c.name c.version) [
  | none ↦ negotiate_loop backends s offset cs
  | some p ↦ negotiate_loop backends (open_stream s offset p.length p) (offset + p.length) cs
]

unfoldable pub negotiate_protocols :
    List ProtocolSpec → Session → Info → Result SessionError Session
negotiate_protocols backends s info =
    let s' = negotiate_loop backends s base_protocol_length info.caps in
    if length s'.streams == 0 then err no_matching_protocols else ok s'

-- Session.getStream, as the position of the stream
unfoldable pub get_stream : List Stream → ℕ → Option ℕ
get_stream [] code = none
get_stream (p ∷ ps) code =
    let rest = get_stream ps code in
    if leb p.offset code && ltb code (p.offset + p.length)
    then some 0
    else elim rest [ none ↦ none | some i ↦ some (i + 1) ]

unfoldable pub read_data_at : ℕ → List Stream → ℕ → Bytes → List Stream
read_data_at i [] code buf = []
read_data_at zero (p ∷ ps) code buf = read_data p code buf ∷ ps
read_data_at (suc i) (p ∷ ps) code buf = p ∷ read_data_at i ps code buf

-- `case i.errorCh <- err: default:` for a channel of one place
abbrev pub offer : SessionError → Option SessionError → Option SessionError
offer e none = some e
offer e (some old) = some old

module _ (c : Primitives) where
  -- Session.WriteRawMsg
  unfoldable pub write_raw_msg : Session → ℕ → Bytes → Result SessionError Session
  write_raw_msg s code buf =
      if s.closed then err stream_closed else elim (write c s.half_out code buf) [
        | ok (half, out) ↦ ok (record s { half_out = half; sent = s.sent ++ out })
        | err e ↦ err (frame e)
      ]

  -- Session.writeCode
  unfoldable pub write_code : Session → ℕ → Result SessionError Session
  write_code s code = write_raw_msg s code (0xc0 ∷ [])

  or_same : Session → Result SessionError Session → Session
  or_same s (ok s') = s'
  or_same s (err e) = s

  first_error : Option SessionError → SessionError → Option SessionError
  first_error none e = some e
  first_error (some old) e = some old

  -- Session.Disconnect: the error of the write is not looked at
  unfoldable pub disconnect : Session → ℕ → Session
  unfolding first_error or_same
  disconnect s why =
      let s1 : Session = record s {
        shutdown = true;
        shutdown_err = first_error s.shutdown_err (reason why);
      } in
      let s2 = or_same s1 (write_raw_msg s1 disc_msg (0xc1 ∷ why % 256 ∷ [])) in
      if s.shutdown then s else record s2 { closed = true; conn_closed = true }

  -- Session.exitErr; Close disconnects with DiscQuitting
  unfoldable pub exit_err : Session → SessionError → Session
  unfolding first_error
  exit_err s e =
      disconnect
        (record s {
          shutdown_err = first_error s.shutdown_err e;
          stream_errors = map (offer e) s.stream_errors;
        })
        disc_quitting

  -- Session.handleStreamMessage: readData on no stream panics
  unfoldable pub handle_stream_message : Session → ℕ → Bytes → Result SessionError Session
  handle_stream_message s code buf = elim (get_stream s.streams code) [
    | none ↦ err panicked
    | some i ↦ ok (record s { streams = read_data_at i s.streams code buf })
  ]

  -- the error that ends the loop, or a panic: reading a frame without content panics, too
  unfoldable pub stop : Session → SessionError → Result SessionError Session
  stop s panicked = err panicked
  stop s (frame panic) = err panicked
  stop s e = ok (exit_err s e)

  module _ (r : Rlp) where
    -- the reason that a disconnect message gives
    reason_of : Decoded ℕ → ℕ
    reason_of (ok n) = n
    reason_of (err e) = disc_unknown

    -- Session.recvLoop: one message
    unfoldable pub recv_msg : Session → ℕ → Bytes → Result SessionError Session
    unfolding reason_of
    recv_msg s code buf =
        if code == ping_msg
        then write_code s pong_msg
        else if code == pong_msg
        then ok s
        else if code == disc_msg
        then err (reason (reason_of (decode_disc_msg r buf)))
        else handle_stream_message s code buf

    -- Session.recv over the messages that are read until reading fails with `e`: the first error
    -- ends the session, and a panic the program
    unfoldable pub recv : Session → List (ℕ × Bytes) → SessionError → Result SessionError Session
    recv s [] e = stop s e
    recv s ((code, buf) ∷ msgs) e = elim (recv_msg s code buf) [
      | ok s' ↦ recv s' msgs e
      | err e' ↦ stop s e'
    ]

    info_of : Decoded Info → Result SessionError Info
    info_of (ok info) = ok info
    info_of (err e) = err panicked

    read_disconnect : Decoded ℕ → Result SessionError Info
    read_disconnect (ok n) = err disconnected
    read_disconnect (err e) = err (codec e)

    -- readProtocolHandshake, on the message read, with the identifier of the remote key
    unfoldable pub read_protocol_handshake : Bytes → ℕ → Bytes → Result SessionError Info
    unfolding read_disconnect info_of
    read_protocol_handshake remote_id code buf =
        if ltb base_protocol_max_msg_size (length buf)
        then err message_too_big
        else if code == disc_msg
        then read_disconnect (decode_disc_msg r buf)
        else if not (code == handshake_msg)
        then err not_handshake
        else (do
          info ← info_of (unmarshal_info r buf)
          guard (not (all_zero info.id)) (reason disc_invalid_identity)
          guard (bytes_eq remote_id info.id) id_mismatch
          ok info)

    -- doProtocolHandshake: what is written, and what is done with the input; the two halves run
    -- beside each other and share no state
    unfoldable pub do_protocol_handshake :
        Bytes → Session → Info → Bytes → Result SessionError (Info × Session × Bytes)
    do_protocol_handshake remote_id s info input = do
      s1 ← write_raw_msg s handshake_msg (marshal_info r info)
      (peer, s2, rest) ← elim (read c s1.half_in input) [
        | err e ↦ err (frame e)
        | ok (code, buf, half, rest) ↦ elim (read_protocol_handshake remote_id code buf) [
          | err e ↦ err e
          | ok peer ↦ ok (peer, record s1 { half_in = half }, rest)
        ]
      ]
      ok (peer, (if ltb peer.version snappy_protocol_version then s2 else set_snappy s2), rest)
