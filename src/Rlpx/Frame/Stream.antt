-- ===== src/Rlpx/Frame/Stream.antt =====
-- The stream cipher of rlpx/session.go, and the laws of the primitives.
use Prim.Native.Nat.{bit_xor}
use go_devp2p.Prelude.{
  ℕ, suc, ◌+◌, ◌<◌, ◌≡◌, refl, ap, ◌∙◌, if◌then◌else◌, ◌==◌, some, [], ◌∷◌, ◌++◌, Bytes, IsBytes,
  length, xor_twice, xor_byte, arith,
}
use go_devp2p.Rlpx.Frame.{Primitives, xor_stream}

-- What the frames rely on in the primitives: their sizes, bytes that are bytes, the RLP encoding of
-- a code of one byte, and that snappy decodes what it encodes.
pub record Laws (c : Primitives) : Type 0 where
  pub key_byte : (i : ℕ) → c.key_stream i < 256
  pub encrypt_size : (b : Bytes) → length (c.encrypt b) ≡ 16
  pub digest_size : (b : Bytes) → length (c.digest b) ≡ 32
  pub code_byte : (n : ℕ) → n < 128 → c.encode_code n ≡ (if n == 0 then 128 ∷ [] else n ∷ [])
  pub snappy_bytes : (b : Bytes) → IsBytes b → IsBytes (c.snappy_encode b)
  pub snappy_round : (b : Bytes) → c.snappy_decode (c.snappy_encode b) ≡ some b

module _ (c : Primitives) where
  pub length-xor_stream : (pos : ℕ) (b : Bytes) → length (xor_stream c pos b) ≡ length b
  unfolding xor_stream
  length-xor_stream pos [] = refl
  length-xor_stream pos (b ∷ bs) = ap suc (length-xor_stream (suc pos) bs)

  pub xor_stream-append :
      (pos : ℕ) (a b : Bytes)
      → xor_stream c pos (a ++ b) ≡ xor_stream c pos a ++ xor_stream c (pos + length a) b
  unfolding xor_stream
  xor_stream-append pos [] b = ap (λ p. xor_stream c p b) (omega arith)
  xor_stream-append pos (x ∷ a) b =
      ap (λ l. bit_xor x (c.key_stream pos) ∷ l)
        (xor_stream-append (suc pos) a b
          ∙ ap (λ p. xor_stream c (suc pos) a ++ xor_stream c p b) (omega arith))

  module _ (l : Laws c) where
    pub xor_stream_twice :
        (pos : ℕ) (b : Bytes) → IsBytes b → xor_stream c pos (xor_stream c pos b) ≡ b
    unfolding xor_stream
    xor_stream_twice pos [] h = refl
    xor_stream_twice pos (b ∷ bs) h =
        rw (xor_twice b (c.key_stream pos) h.0 (l.key_byte pos), xor_stream_twice (suc pos) bs h.1)

    pub IsBytes-xor_stream : (pos : ℕ) (b : Bytes) → IsBytes b → IsBytes (xor_stream c pos b)
    unfolding xor_stream
    IsBytes-xor_stream pos [] h = tt
    IsBytes-xor_stream pos (b ∷ bs) h =
        (xor_byte b (c.key_stream pos) h.0 (l.key_byte pos), IsBytes-xor_stream (suc pos) bs h.1)
