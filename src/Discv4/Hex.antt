-- ===== src/Discv4/Hex.antt =====
-- Hexadecimal text: EncodeToHex and DecodeHex of discovery/discv4.go, with encoding/hex and the
-- functions of strings that they call.
pub mod RoundTrip
use go_devp2p.Prelude.{
  ℕ, ◌+◌, ◌-◌, ◌*◌, ◌/◌, ◌%◌, Bool, Option, none, some, List, [], ◌∷◌, ◌++◌, Bytes, codes, drop,
  has_prefix, ltb, leb, ◌==◌, ◌&&◌, if◌then◌else◌, Result, ok, err, ◌>>=◌, from_option,
}

-- the table of hex.EncodeToString
unfoldable pub hex_digit : ℕ → ℕ
hex_digit n = if ltb n 10 then 48 + n else 87 + n

unfoldable pub encode_to_string : Bytes → Bytes
encode_to_string [] = []
encode_to_string (b ∷ bs) = hex_digit (b / 16) ∷ hex_digit (b % 16) ∷ encode_to_string bs

-- a digit that hex.DecodeString reads, of either case
unfoldable pub from_hex_char : ℕ → Option ℕ
from_hex_char c =
    if leb 48 c && leb c 57
    then some (c - 48)
    else if leb 97 c && leb c 102
    then some (c - 87)
    else if leb 65 c && leb c 70
    then some (c - 55)
    else none

-- hex.InvalidByteError and hex.ErrLength
pub data HexError : Type 0 where
  invalid_byte odd_length : HexError

-- hex.DecodeString
unfoldable pub decode_string : Bytes → Result HexError Bytes
decode_string [] = ok []
decode_string (c ∷ []) = elim (from_hex_char c) [
  | none ↦ err invalid_byte
  | some _ ↦ err odd_length
]
decode_string (c ∷ d ∷ cs) = do
  high ← from_option invalid_byte (from_hex_char c)
  low ← from_option invalid_byte (from_hex_char d)
  rest ← decode_string cs
  ok ((high * 16 + low) ∷ rest)

abbrev pub hex_prefix : Bytes
hex_prefix = codes "0x"

-- `if strings.HasPrefix(str, "0x") { str = str[2:] }`
unfoldable pub trim_hex_prefix : Bytes → Bytes
trim_hex_prefix str = if has_prefix str hex_prefix then drop 2 str else str

-- EncodeToHex
unfoldable pub encode_to_hex : Bytes → Bytes
encode_to_hex str = hex_prefix ++ encode_to_string str

-- DecodeHex
unfoldable pub decode_hex : Bytes → Result HexError Bytes
decode_hex str = decode_string (trim_hex_prefix str)

-- strings.Replace(s, "0x", "", -1)
unfoldable pub remove_hex_prefixes : Bytes → Bytes
remove_hex_prefixes [] = []
remove_hex_prefixes (c ∷ []) = c ∷ []
remove_hex_prefixes (c ∷ d ∷ cs) =
    let skipped = remove_hex_prefixes cs in
    let kept = c ∷ remove_hex_prefixes (d ∷ cs) in if c == 48 && d == 120 then skipped else kept
