-- ===== src/Rlpx/Stream.antt =====
-- rlpx/stream.go: the buffer of a stream and the header in it. A reader that would wait is `none`;
-- deadlines, the locks and the signals between goroutines are left out.
pub mod Queue
use go_devp2p.Prelude.{
  ℕ, ◌+◌, ◌-◌, ◌^◌, ◌≡◌, Bool, true, false, not, Option, none, some, List, [], ◌∷◌, ◌++◌, Bytes,
  length, take, drop, replicate, u16, be16, be32, read_be16, read_be32, min, leb, ltb, ◌==◌, ◌&&◌,
  if◌then◌else◌,
}

-- devp2p.ProtocolSpec
pub record ProtocolSpec : Type 0 where
  pub name : Bytes
  pub version : ℕ
  pub length : ℕ

pub record Stream : Type 0 where
  pub offset : ℕ
  pub length : ℕ
  pub recv_buf : Bytes
  pub header : Option Bytes
  pub protocol : ProtocolSpec

abbrev pub header_size : ℕ
header_size = 6

-- NewStream
unfoldable pub new_stream : ℕ → ℕ → ProtocolSpec → Stream
new_stream offset length spec = record {
  offset = offset;
  length = length;
  recv_buf = [];
  header = none;
  protocol = spec;
}

-- Header.Encode, MsgType and Length: a uint16 and a uint32, big-endian
unfoldable pub encode : ℕ → ℕ → Bytes
encode msg_type size = be16 msg_type ++ be32 size

unfoldable pub msg_type : Bytes → Option ℕ
msg_type h = read_be16 (take 2 h)

unfoldable pub header_length : Bytes → Option ℕ
header_length h = read_be32 (take 4 (drop 2 h))

-- code - uint64(s.offset), which wraps around
abbrev pub minus : ℕ → ℕ → ℕ
minus code offset = if leb offset code then code - offset else code + 18446744073709551616 - offset

-- Stream.readData: the message goes into the buffer behind its header
unfoldable pub read_data : Stream → ℕ → Bytes → Stream
read_data s code buf = record s {
  recv_buf = s.recv_buf ++ (encode (u16 (minus code s.offset)) (length buf) ++ buf);
}

-- Stream.read of `n` bytes: what is there, up to `n`
unfoldable pub read : Stream → ℕ → Option (Bytes × Stream)
read s n =
    if n == 0
    then some ([], s)
    else if length s.recv_buf == 0
    then none
    else some (take n s.recv_buf, record s { recv_buf = drop n s.recv_buf })

-- a read into a buffer of `n` zeros
unfoldable pub read_into : Stream → ℕ → Option (Bytes × Stream)
read_into s n = elim (read s n) [
  | none ↦ none
  | some (b, s') ↦ some (b ++ replicate (n - length b) 0, s')
]

-- Stream.ReadMsg
unfoldable pub read_msg : Stream → Option (Bytes × ℕ × Stream)
read_msg s = elim (read_into s header_size) [
  | none ↦ none
  | some (header, s1) ↦ elim (header_length header) [
    | none ↦ none
    | some n ↦ elim (read_into s1 n) [
      | none ↦ none
      | some (buf, s2) ↦ elim (msg_type header) [ none ↦ none | some code ↦ some (buf, code, s2) ]
    ]
  ]
]
