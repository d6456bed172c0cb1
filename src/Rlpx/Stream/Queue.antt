-- ===== src/Rlpx/Stream/Queue.antt =====
-- The messages of a stream of rlpx/stream.go, from their arrival to the reader.
use go_devp2p.Prelude.{
  ℕ, zero, suc, ◌+◌, ◌-◌, ◌^◌, ◌<◌, ◌≤◌, ◌≡◌, refl, sym, ap, ◌∙◌, true, false, Option, none, some,
  List, [], ◌∷◌, ◌++◌, append_assoc, append-nil, Bytes, length, take-length, drop-length, u16, be16,
  be32, read_be16-be16, read_be32-be32, leb, ◌==◌, All, arith,
}
use go_devp2p.Rlpx.Stream.{
  Stream, encode, msg_type, header_length, minus, read_data, read, read_into, read_msg, header_size,
}

-- A message of the stream: its code is less than 2 ^ 16 above the offset, and its size is of 32 bits.
abbrev pub MsgFits : Stream → ℕ × Bytes → Type 0
MsgFits s (code, buf) = (s.offset ≤ code) × (code < s.offset + 2 ^ 16) × (length buf < 2 ^ 32)

-- Messages that arrive, one after the other.
unfoldable pub arrive : Stream → List (ℕ × Bytes) → Stream
arrive s [] = s
arrive s ((code, buf) ∷ msgs) = arrive (read_data s code buf) msgs

-- Reading as many messages.
unfoldable pub read_msgs : ℕ → Stream → Option (List (Bytes × ℕ) × Stream)
read_msgs zero s = some ([], s)
read_msgs (suc n) s = elim (read_msg s) [
  | none ↦ none
  | some (buf, code, s') ↦ elim (read_msgs n s') [
    | none ↦ none
    | some (msgs, s'') ↦ some ((buf, code) ∷ msgs, s'')
  ]
]

-- The bytes that the messages put into the buffer.
packed : Stream → List (ℕ × Bytes) → Bytes
packed s [] = []
packed s ((code, buf) ∷ msgs) =
    (encode (u16 (minus code s.offset)) (length buf) ++ buf) ++ packed s msgs

-- What the reader gets for them.
abbrev pub answers : Stream → List (ℕ × Bytes) → List (Bytes × ℕ)
answers s [] = []
answers s ((code, buf) ∷ msgs) = (buf, code - s.offset) ∷ answers s msgs

arrive_lem :
    (s : Stream) (b : Bytes) (msgs : List (ℕ × Bytes))
    → arrive (record s { recv_buf = b }) msgs ≡ record s { recv_buf = b ++ packed s msgs }
unfolding arrive read_data packed
arrive_lem s b [] = ap (λ t. record s { recv_buf = t }) (sym (append-nil b))
arrive_lem s b ((code, buf) ∷ msgs) =
    arrive_lem s (b ++ (encode (u16 (minus code s.offset)) (length buf) ++ buf)) msgs
    ∙ ap (λ t. record s { recv_buf = t })
        (append_assoc b (encode (u16 (minus code s.offset)) (length buf) ++ buf) (packed s msgs))

pub length-encode : (c n : ℕ) → length (encode c n) ≡ 6
unfolding encode be16 be32
length-encode c n = refl

read_into_exact :
    (s : Stream) (a b : Bytes)
    → read_into (record s { recv_buf = a ++ b }) (length a) ≡ some (a, record s { recv_buf = b })
unfolding read_into read
read_into_exact s [] b = refl
read_into_exact s (x ∷ a) b =
    let z : suc (length a) - suc (length a) ≡ 0 = omega arith in
    let e1 : (suc (length a) == 0) ≡ false = ground arith in
    let e2 : (suc (length (a ++ b)) == 0) ≡ false = ground arith in
    rw (read_into, read, e1, e2, take-length a b, drop-length a b, z, append-nil a)

pub msg_type-encode : (c n : ℕ) → c < 2 ^ 16 → msg_type (encode c n) ≡ some c
unfolding msg_type encode be16
msg_type-encode c n h = read_be16-be16 c h

pub header_length-encode : (c n : ℕ) → n < 2 ^ 32 → header_length (encode c n) ≡ some n
unfolding header_length encode be16 be32
header_length-encode c n h = read_be32-be32 n h

code_lem :
    (s : Stream) (code : ℕ) (buf : Bytes)
    → MsgFits s (code, buf)
    → (u16 (minus code s.offset) ≡ code - s.offset) × (code - s.offset < 2 ^ 16)
code_lem s code buf h =
    let e : leb s.offset code ≡ true = ground arith in
    let m : minus code s.offset ≡ code - s.offset = rw e in (omega (arith, m), omega arith)

read_msg-packed :
    (s : Stream) (code : ℕ) (buf rest : Bytes)
    → MsgFits s (code, buf)
    → read_msg
        (record s { recv_buf = (encode (u16 (minus code s.offset)) (length buf) ++ buf) ++ rest })
      ≡ some (buf, code - s.offset, record s { recv_buf = rest })
unfolding read_msg
read_msg-packed s code buf rest h =
    let c = u16 (minus code s.offset) in
    let (e, lt) = code_lem s code buf h in
    let first : read_into (record s { recv_buf = encode c (length buf) ++ (buf ++ rest) })
          header_size
        ≡ some (encode c (length buf), record s { recv_buf = buf ++ rest }) =
      ap (read_into (record s { recv_buf = encode c (length buf) ++ (buf ++ rest) }))
        (sym (length-encode c (length buf)))
      ∙ read_into_exact s (encode c (length buf)) (buf ++ rest) in
    let lt' : c < 2 ^ 16 = omega arith in
    rw (
      read_msg,
      append_assoc (encode c (length buf)) buf rest,
      first,
      header_length-encode c (length buf) h.2,
      read_into_exact s buf rest,
      msg_type-encode c (length buf) lt',
      e,
    )

read_msgs-packed :
    (s : Stream) (msgs : List (ℕ × Bytes))
    → All (MsgFits s) msgs
    → read_msgs (length msgs) (record s { recv_buf = packed s msgs })
      ≡ some (answers s msgs, record s { recv_buf = [] })
unfolding read_msgs packed
read_msgs-packed s [] h = refl
read_msgs-packed s ((code, buf) ∷ msgs) h =
    rw (
      read_msgs,
      packed,
      read_msg-packed s code buf (packed s msgs) h.0,
      read_msgs-packed s msgs h.1,
    )

-- The messages that arrive at a stream with an empty buffer are read in the order in which they
-- arrived, each with its content and with its code less the offset, and then the buffer is empty
-- again. Every code is less than 2 ^ 16 above the offset, and every size is of 32 bits.
pub read_msgs-arrive :
    (s : Stream) (msgs : List (ℕ × Bytes))
    → s.recv_buf ≡ []
    → All (MsgFits s) msgs
    → read_msgs (length msgs) (arrive s msgs) ≡ some (answers s msgs, s)
read_msgs-arrive s msgs e h =
    let p : s ≡ record s { recv_buf = [] } = ap (λ t. record s { recv_buf = t }) e in
    ap (λ t. read_msgs (length msgs) (arrive t msgs)) p
    ∙ (ap (read_msgs (length msgs)) (arrive_lem s [] msgs)
        ∙ (read_msgs-packed s msgs h ∙ ap (λ t. some (answers s msgs, t)) (sym p)))
