-- ===== src/Rlpx/Session/Write.antt =====
-- Writing to a stream: WriteMsg and Write of rlpx/stream.go, on the session of the stream.
use go_devp2p.Prelude.{
  ℕ, ◌+◌, ◌%◌, ◌^◌, ◌<◌, ◌≡◌, ◌∙◌, ap, true, false, not, Option, none, some, [], Bytes, length,
  ◌==◌, ==_refl, if◌then◌else◌, Result, ok, err, arith,
}
use go_devp2p.Rlpx.Frame.{Primitives}
use go_devp2p.Rlpx.Stream.{Stream, encode, msg_type, header_length, header_size}
use go_devp2p.Rlpx.Stream.Queue.{header_length-encode, msg_type-encode, length-encode}
use go_devp2p.Rlpx.Session.{Session, SessionError, write_raw_msg}

pub data WriteError : Type 0 where
  bad_length wrong_size panic : WriteError
  session : SessionError → WriteError

-- The stream and its session afterwards, and what the call returns
abbrev pub Written : Type 0
Written = Stream × Session × Result WriteError ℕ

module _ (c : Primitives) where
  -- Stream.WriteMsg; the sum of two uint64
  unfoldable pub write_msg : Session → Stream → ℕ → Bytes → Result SessionError Session
  write_msg s st code b = write_raw_msg c s ((code + st.offset) % 18446744073709551616) b

  -- what Write returns when the session has written or not
  unfoldable pub written : Stream → Session → Bytes → Result SessionError Session → Written
  written st s b (ok s') = (st, s', ok (length b))
  written st s b (err e) = (st, s, err (session e))

  -- the second half of Write: the header is used up
  unfoldable pub write_behind : Stream → Session → Bytes → Bytes → Written
  write_behind st s header b =
      let st' : Stream = record st { header = none } in
      elim (header_length header) [
        | none ↦ (st', s, err panic)
        | some size ↦ elim (msg_type header) [
          | none ↦ (st', s, err panic)
          | some code ↦
              if not (length b == size)
              then (st', s, err wrong_size)
              else written st' s b (write_msg s st' code b)
        ]
      ]

  write_header : Stream → Session → Bytes → Written
  write_header st s b =
      let st1 : Stream = record st { header = some b } in
      elim (header_length b) [
        | none ↦ (st1, s, err panic)
        | some size ↦ if size == 0 then write_behind st1 s b [] else (st1, s, ok (length b))
      ]

  from_header : Stream → Session → Bytes → Option Bytes → Written
  from_header st s b (some header) = write_behind st s header b
  from_header st s b none =
      if not (length b == header_size) then (st, s, err bad_length) else write_header st s b

  -- Stream.Write
  unfoldable pub stream_write : Stream → Session → Bytes → Written
  unfolding from_header write_header
  stream_write st s b = from_header st s b st.header

  -- the stream before a header
  abbrev pub idle : Stream → Stream
  idle st = record st { header = none }

  header_written :
      (st : Stream) (s : Session) (code size : ℕ)
      → size < 2 ^ 32
      → stream_write (idle st) s (encode code size) ≡ (
          if size == 0
          then write_behind (record st { header = some (encode code size) }) s (encode code size) []
          else (record st { header = some (encode code size) }, s, ok 6))
  unfolding stream_write from_header write_header
  header_written st s code size lt =
      let six : (length (encode code size) == 6) ≡ true =
        ap (λ n. n == 6) (length-encode code size) in
      rw (six, write_header, header_length-encode code size lt, length-encode code size)

  behind_lem :
      (st : Stream) (s : Session) (code : ℕ) (b : Bytes) (h : Option Bytes)
      → code < 2 ^ 16
      → length b < 2 ^ 32
      → write_behind (record st { header = h }) s (encode code (length b)) b
        ≡ written (idle st) s b (write_msg s (idle st) code b)
  unfolding write_behind
  behind_lem st s code b h lc lb = rw (
    write_behind,
    header_length-encode code (length b) lb,
    msg_type-encode code (length b) lc,
    ==_refl (length b),
  )

  -- Writing the header of an empty message writes the message.
  pub stream_write_empty :
      (st : Stream) (s : Session) (code : ℕ)
      → code < 2 ^ 16
      → stream_write (idle st) s (encode code 0)
        ≡ written (idle st) s [] (write_msg s (idle st) code [])
  stream_write_empty st s code lc =
      header_written st s code 0 (omega arith)
      ∙ behind_lem st s code [] (some (encode code 0)) lc (omega arith)

  -- On a stream before a header, writing the header of a message that is not empty and then the
  -- message does what WriteMsg does with its code and content, and the stream is before a header
  -- again. The code is of 16 bits and the size of 32.
  pub stream_write-stream_write :
      (st : Stream) (s : Session) (code : ℕ) (b : Bytes)
      → code < 2 ^ 16
      → length b < 2 ^ 32
      → (length b == 0) ≡ false
      → (st1 : Stream) × (stream_write (idle st) s (encode code (length b)) ≡ (st1, s, ok 6))
        × (stream_write st1 s b ≡ written (idle st) s b (write_msg s (idle st) code b))
  unfolding stream_write from_header
  stream_write-stream_write st s code b lc lb ne = (
    record st { header = some (encode code (length b)) },
    header_written st s code (length b) lb ∙ rw ne,
    behind_lem st s code b (some (encode code (length b))) lc lb,
  )
