-- ===== src/Discv4/Hex/RoundTrip.antt =====
-- Encoding and decoding of hexadecimal text in discovery/discv4.go.
use go_devp2p.Prelude.{
  ℕ, ◌+◌, ◌*◌, ◌/◌, ◌%◌, ◌<◌, ◌≡◌, refl, some, ok, has_prefix, [], ◌∷◌, Bytes, IsBytes, length,
  arith,
}
use go_devp2p.Discv4.Hex.{
  hex_digit, from_hex_char, encode_to_string, decode_string, trim_hex_prefix, encode_to_hex,
  decode_hex,
}

from_hex_char-hex_digit : (n : ℕ) → n < 16 → from_hex_char (hex_digit n) ≡ some n
unfolding from_hex_char hex_digit
from_hex_char-hex_digit n h = ground arith

pub decode_string-encode_to_string :
    (b : Bytes) → IsBytes b → decode_string (encode_to_string b) ≡ ok b
unfolding decode_string encode_to_string
decode_string-encode_to_string [] h = refl
decode_string-encode_to_string (x ∷ b) h =
    let q : (x / 16) * 16 + x % 16 ≡ x = omega arith in
    rw
      (
        from_hex_char-hex_digit (x / 16) (omega arith),
        from_hex_char-hex_digit (x % 16) (omega arith),
        decode_string-encode_to_string b h.1,
        q,
      )
      refl

pub trim_hex_prefix-encode_to_hex :
    (b : Bytes) → trim_hex_prefix (encode_to_hex b) ≡ encode_to_string b
unfolding trim_hex_prefix encode_to_hex has_prefix
trim_hex_prefix-encode_to_hex b = refl

-- DecodeHex reads what EncodeToHex writes, of any bytes.
pub decode_hex-encode_to_hex : (b : Bytes) → IsBytes b → decode_hex (encode_to_hex b) ≡ ok b
unfolding decode_hex
decode_hex-encode_to_hex b h =
    rw (trim_hex_prefix-encode_to_hex b) (decode_string-encode_to_string b h)

pub length-encode_to_string : (b : Bytes) → length (encode_to_string b) ≡ 2 * length b
unfolding encode_to_string
length-encode_to_string [] = refl
length-encode_to_string (x ∷ b) = omega (arith, length-encode_to_string b)

-- Text that encode_to_string writes holds no "0x".
pub trim-encode_to_string :
    (b : Bytes) → IsBytes b → trim_hex_prefix (encode_to_string b) ≡ encode_to_string b
unfolding trim_hex_prefix encode_to_string hex_digit has_prefix
trim-encode_to_string [] h = refl
trim-encode_to_string (x ∷ b) h = ground arith
