-- ===== src/Rlp.antt =====
-- github.com/umbracle/fastrlp, the RLP library that every codec of the program calls: its values,
-- and what the program relies on. A decoding error of the library is `none`.
pub mod Tree
use go_devp2p.Prelude.{
  ℕ, zero, suc, ◌^◌, ◌<◌, ◌≡◌, Bool, Option, none, some, List, [], ◌∷◌, Bytes, length, get_elem?,
  ◌==◌, if◌then◌else◌, Result, ok, err, from_option,
}

pub record Rlp : Type 1 where
  pub Value : Type 0
  -- Arena.NewArray and Value.Set; NewNullArray
  pub new_array : List Value → Value
  pub new_null_array : Value
  -- Arena.NewUint; NewBytes, NewCopyBytes and NewString; NewBool
  pub new_uint : ℕ → Value
  pub new_bytes : Bytes → Value
  pub new_bool : Bool → Value
  -- Value.GetElems, GetUint64, GetBytes into an emptied buffer or GetString, GetBytes with a
  -- length, GetBool
  pub get_elems : Value → Option (List Value)
  pub get_uint64 : Value → Option ℕ
  pub get_bytes : Value → Option Bytes
  pub get_bytes_of : ℕ → Value → Option Bytes
  pub get_bool : Value → Option Bool
  -- Value.MarshalTo and Parser.Parse
  pub marshal : Value → Bytes
  pub parse : Bytes → Option Value
  -- Arena.NewBigInt and Value.GetBigInt, of a number of any size
  pub new_big_int : ℕ → Value
  pub get_big_int : Value → Option ℕ
  pub elems_of_array : (vs : List Value) → get_elems (new_array vs) ≡ some vs
  pub elems_of_null_array : get_elems new_null_array ≡ some []
  pub uint64_of_uint : (n : ℕ) → n < 2 ^ 64 → get_uint64 (new_uint n) ≡ some n
  pub bytes_of_bytes : (b : Bytes) → get_bytes (new_bytes b) ≡ some b
  pub bytes_of_uint :
      (n : ℕ) → n < 2 ^ 64 → (b : Bytes) × (get_bytes (new_uint n) ≡ some b) × (length b < 9)
  pub big_int_of_big_int : (n : ℕ) → get_big_int (new_big_int n) ≡ some n
  pub bytes_of_length :
      (n : ℕ) (b : Bytes) → get_bytes_of n (new_bytes b) ≡ (if length b == n then some b else none)
  pub bool_of_bool : (b : Bool) → get_bool (new_bool b) ≡ some b
  pub parse_of_marshal : (v : Value) → parse (marshal v) ≡ some v

-- How a decoder of the program fails: the library refuses the value, the program does, or it
-- panics, such as by an index out of range.
pub data CodecError : Type 0 where
  not_rlp bad panic : CodecError

abbrev pub Decoded {ℓ} : Type ℓ → Type ℓ
Decoded A = Result CodecError A

module _ (r : Rlp) where
  open r use {
    Value, get_elems, get_uint64, get_bytes, get_bytes_of, get_bool, get_big_int, parse, new_array,
    new_null_array,
  }

  abbrev pub elems : Value → Decoded (List Value)
  elems v = from_option not_rlp (get_elems v)

  abbrev pub uint64 : Value → Decoded ℕ
  uint64 v = from_option not_rlp (get_uint64 v)

  abbrev pub bytes : Value → Decoded Bytes
  bytes v = from_option not_rlp (get_bytes v)

  abbrev pub bytes_of : ℕ → Value → Decoded Bytes
  bytes_of n v = from_option not_rlp (get_bytes_of n v)

  abbrev pub bool : Value → Decoded Bool
  bool v = from_option not_rlp (get_bool v)

  abbrev pub big_int : Value → Decoded ℕ
  big_int v = from_option not_rlp (get_big_int v)

  abbrev pub parsed : Bytes → Decoded Value
  parsed b = from_option not_rlp (parse b)

  -- elems[i]
  abbrev pub elem : List Value → ℕ → Decoded Value
  elem vs i = from_option panic (get_elem? vs i)

  -- the program's encoders use NewNullArray where a list is empty
  abbrev pub array_or_null : List Value → Value
  array_or_null [] = new_null_array
  array_or_null (v ∷ vs) = new_array (v ∷ vs)
