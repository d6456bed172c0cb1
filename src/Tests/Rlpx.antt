-- ===== src/Tests/Rlpx.antt =====
-- The frames, streams and sessions of rlpx, with concrete primitives.
use go_devp2p.Prelude.{
  ℕ, ◌%◌, ◌<◌, ◌≤◌, ◌≡◌, ◌⊎◌, ◌↔◌, refl, Bool, true, false, ◌&&◌, none, some, List, [], ◌∷◌, ◌++◌,
  Bytes, IsBytes, length, replicate, get_elem?, ltb, ◌==◌, if◌then◌else◌, ok, err, bytes_eq,
  all_zero, arith,
}
use go_devp2p.Rlp.Tree.{tree_rlp, write}
use go_devp2p.Rlpx.Messages.{Info, AuthMsg, AuthResp, marshal_info, marshal_cap}
use go_devp2p.Rlpx.Messages.RoundTrip.{InfoFits}
use go_devp2p.Rlpx.Frame.{Primitives, HalfConn, FrameError, eof, read}
use go_devp2p.Rlpx.Frame.Stream.{Laws}
use go_devp2p.Rlpx.Frame.RoundTrip.{IsHeader, read-write}
use go_devp2p.Rlpx.Stream.{ProtocolSpec, Stream, new_stream, read_data, encode}
use go_devp2p.Rlpx.Stream.Queue.{arrive, read_msgs, answers, read_msgs-arrive}
use go_devp2p.Rlpx.Session.{
  Session, frame, panicked, negotiate_protocols, negotiate_loop, get_protocol, open_stream,
  get_stream, write_raw_msg, recv_msg, recv, do_protocol_handshake,
}
use go_devp2p.Rlpx.Session.Negotiate.{
  Finds, InRange, negotiate_protocols-Finds, recv_msg-negotiate_protocols, recv_msg-Finds,
}
use go_devp2p.Rlpx.Session.Shutdown.{Ended, recv-Ended}
use go_devp2p.Rlpx.Session.Write.{idle, written, write_msg, stream_write, stream_write-stream_write}
use go_devp2p.Rlpx.Session.Handshake.{
  InfoGood, CanWrite, shaken, do_protocol_handshake-write_raw_msg,
}

abbrev toy : Primitives
toy = record {
  key_stream = λ i. i % 256;
  encrypt = λ b. replicate 16 7;
  digest = λ b. replicate 32 (length b);
  encode_code = λ n. if n == 0 then 128 ∷ [] else n ∷ [];
  snappy_encode = λ b. b;
  snappy_decode = λ b. some b;
}

toy-Laws : Laws toy
toy-Laws = record {
  key_byte = λ i. omega arith;
  encrypt_size = λ b. refl;
  digest_size = λ b. refl;
  code_byte = λ n h. refl;
  snappy_bytes = λ b h. h;
  snappy_round = λ b. refl;
}

abbrev half : HalfConn
half = record { snappy = false; position = 0; written = []; header = replicate 32 0 }

check_bytes : Bytes → Bool
check_bytes [] = true
check_bytes (b ∷ bs) = ltb b 256 && check_bytes bs

check_bytes-IsBytes : (b : Bytes) → check_bytes b ≡ true → IsBytes b
unfolding check_bytes
check_bytes-IsBytes [] h = tt
check_bytes-IsBytes (b ∷ bs) h = (ground arith, check_bytes-IsBytes bs (ground arith))

half-IsHeader : IsHeader toy toy-Laws half.header
unfolding check_bytes
half-IsHeader = (check_bytes-IsBytes (replicate 32 0) refl, refl)

read-write_example :
    (s' : HalfConn) × (other' : Bytes) × (out : Bytes) × ((go_devp2p.Rlpx.Frame.write toy half 2
          (5 ∷ 6 ∷ [])
        ≡ ok (s', out))
      × (IsHeader toy toy-Laws s'.header
          × (read toy (record half { header = replicate 32 1 }) (out ++ (9 ∷ []))
              ≡ ok (2, 5 ∷ 6 ∷ [], record s' { header = other' }, 9 ∷ []))))
read-write_example =
    read-write toy toy-Laws half (replicate 32 1) 2 (5 ∷ 6 ∷ []) (9 ∷ []) half-IsHeader
      (omega arith, (omega arith, (omega arith, tt)), omega arith)

abbrev eth_spec : ProtocolSpec
eth_spec = record { name = 101 ∷ 116 ∷ 104 ∷ []; version = 66; length = 17 }

abbrev eth_stream : Stream
eth_stream = record { offset = 16; length = 17; recv_buf = []; header = none; protocol = eth_spec }

abbrev two_messages : List (ℕ × Bytes)
two_messages = (18, 1 ∷ 2 ∷ []) ∷ (16, []) ∷ []

read_msgs-arrive_example :
    read_msgs (length two_messages) (arrive eth_stream two_messages)
    ≡ some (answers eth_stream two_messages, eth_stream)
read_msgs-arrive_example =
    read_msgs-arrive eth_stream two_messages refl
      ((omega arith, omega arith, omega arith), ((omega arith, omega arith, omega arith), tt))

abbrev peer_info : Info
peer_info = record {
  version = 5;
  name = 103 ∷ [];
  caps = record { name = 101 ∷ 116 ∷ 104 ∷ []; version = 66 } ∷ [];
  listen_port = 30;
  id = replicate 64 1;
}

peer_info-InfoFits : InfoFits peer_info
peer_info-InfoFits = record {
  version = omega arith;
  caps = (omega arith, tt);
  listen_port = omega arith;
  id = refl;
}

abbrev auth : AuthMsg
auth = record {
  got_plain = false;
  signature = replicate 65 1;
  initiator_pubkey = replicate 64 2;
  nonce = replicate 32 3;
  version = 4;
}

abbrev resp : AuthResp
resp = record { random_pubkey = replicate 64 2; nonce = replicate 32 3; version = 4 }

abbrev session : Session
session = record {
  streams = [];
  stream_errors = [];
  shutdown = false;
  shutdown_err = none;
  closed = false;
  conn_closed = false;
  half_in = half;
  half_out = half;
  sent = [];
}

abbrev negotiated : Session
negotiated = record session { streams = eth_stream ∷ []; stream_errors = none ∷ [] }

negotiates : negotiate_protocols (eth_spec ∷ []) session peer_info ≡ ok negotiated
unfolding negotiate_protocols negotiate_loop get_protocol open_stream new_stream bytes_eq
negotiates = refl

negotiate_protocols-Finds_example :
    (e : ℕ) × (((code : ℕ)
        → 16 ≤ code
        → code < e
        → (i : ℕ) × (p : Stream) × Finds negotiated.streams code i p)
      × ((code j k : ℕ) (p q : Stream)
          → get_elem? negotiated.streams j ≡ some p
          → get_elem? negotiated.streams k ≡ some q
          → InRange code p
          → InRange code q
          → j ≡ k)
      × ((code : ℕ) → (code < 16) ⊎ (e ≤ code) → get_stream negotiated.streams code ≡ none))
negotiate_protocols-Finds_example =
    negotiate_protocols-Finds (eth_spec ∷ []) session negotiated peer_info refl negotiates

finds_stream : get_stream (eth_stream ∷ []) 18 ≡ some 0
unfolding get_stream
finds_stream = refl

recv_msg-Finds_example :
    (s' : Session) × ((recv_msg toy tree_rlp negotiated 18 (7 ∷ []) ≡ ok s')
      × (get_elem? s'.streams 0 ≡ some (read_data eth_stream 18 (7 ∷ [])))
      × (get_elem? s'.streams 1 ≡ get_elem? negotiated.streams 1))
recv_msg-Finds_example =
    recv_msg-Finds toy tree_rlp negotiated 18 0 eth_stream (7 ∷ []) 1 (omega arith)
      (finds_stream, refl, (omega arith, omega arith)) (λ e. cc)

recv_msg-negotiate_protocols_example :
    (e : ℕ) × (16 ≤ e)
    × ((code : ℕ) (buf : Bytes)
        → (code ≡ 0) ⊎ (3 < code)
        → (recv_msg toy tree_rlp negotiated code buf ≡ err panicked) ↔ ((code < 16) ⊎ (e ≤ code)))
recv_msg-negotiate_protocols_example =
    recv_msg-negotiate_protocols toy tree_rlp (eth_spec ∷ []) session negotiated peer_info refl
      negotiates

recv-Ended_example :
    (recv toy tree_rlp negotiated two_messages (frame eof) ≡ err panicked)
    ⊎ ((s : Session) × (recv toy tree_rlp negotiated two_messages (frame eof) ≡ ok s) × Ended toy s)
recv-Ended_example = recv-Ended toy tree_rlp negotiated two_messages (frame eof) (λ h. cc)

marshal_info-IsBytes : IsBytes (marshal_info tree_rlp peer_info)
unfolding check_bytes marshal_info marshal_cap write
marshal_info-IsBytes = check_bytes-IsBytes (marshal_info tree_rlp peer_info) refl

marshal_info-small : length (marshal_info tree_rlp peer_info) ≤ 2048
unfolding marshal_info marshal_cap write
marshal_info-small = omega arith

peer_info-InfoGood : InfoGood toy toy-Laws tree_rlp peer_info
unfolding all_zero
peer_info-InfoGood = record {
  fits = peer_info-InfoFits;
  not_zero = refl;
  small = marshal_info-small;
}

session-CanWrite : CanWrite toy toy-Laws tree_rlp session peer_info
session-CanWrite =
    (refl, half-IsHeader, (omega arith, marshal_info-IsBytes, omega (arith, marshal_info-small)))

do_protocol_handshake-write_raw_msg_example :
    (half' : HalfConn) × (out : Bytes) × (other' : Bytes) × (half_b : HalfConn) × (out_b : Bytes)
    × ((write_raw_msg toy session 0 (marshal_info tree_rlp peer_info)
          ≡ ok (record session { half_out = half'; sent = [] ++ out }))
        × (do_protocol_handshake toy tree_rlp peer_info.id session peer_info (out ++ [])
            ≡ ok (
              peer_info,
              shaken toy toy-Laws tree_rlp session peer_info
                  (record half' { header = other' })
                  half_b
                  out_b,
              [],
            )))
do_protocol_handshake-write_raw_msg_example =
    do_protocol_handshake-write_raw_msg toy toy-Laws tree_rlp session session peer_info peer_info
      (replicate 32 0) [] peer_info-InfoGood session-CanWrite session-CanWrite refl

stream_write-stream_write_example :
    (st1 : Stream) × (stream_write toy (idle toy eth_stream) negotiated (encode 2 1)
      ≡ (st1, negotiated, ok 6))
    × (stream_write toy st1 negotiated (9 ∷ [])
        ≡ written toy
            (idle toy eth_stream)
            negotiated
            (9 ∷ [])
            (write_msg toy negotiated (idle toy eth_stream) 2 (9 ∷ [])))
stream_write-stream_write_example =
    stream_write-stream_write toy eth_stream negotiated 2 (9 ∷ []) (omega arith) (omega arith) refl
