-- ===== src/Enr.antt =====
-- enr/enr.go: node records. A record is decoded into a new one; the base64 codec is a parameter.
pub mod Entries
pub mod Repeated
pub mod RoundTrip
use go_devp2p.Prelude.{
  ℕ, ◌+◌, ◌%◌, ◌≡◌, Bool, true, false, not, Option, none, some, List, [], ◌∷◌, ◌++◌, Bytes, length,
  take, drop, ltb, ◌==◌, if◌then◌else◌, Result, ok, err, ◌>>=◌, ◌>>◌, guard, from_option, bytes_eq,
  bytes_lt, codes, has_prefix,
}
use go_devp2p.Rlp.{
  Rlp, CodecError, not_rlp, bad, panic, Decoded, elems, uint64, bytes, elem, parsed,
}

pub data RecordError : Type 0 where
  no_prefix not_base64 duplicated_key not_sorted key_not_found : RecordError
  codec : CodecError → RecordError

-- the decoder's error passed on
abbrev pub decoded {ℓ} : {A : Type ℓ} → Decoded A → Result RecordError A
decoded (ok a) = ok a
decoded (err e) = err (codec e)

module _ (r : Rlp) where
  open r use {Value, new_array, new_uint, new_bytes, marshal, parse}

  -- entry: a key and its value
  abbrev pub Item : Type 0
  Item = Bytes × Value

  pub record Record : Type 0 where
    pub seq : ℕ
    pub signature : Bytes
    pub entries : List Item

  abbrev pub new_record : Record
  new_record = record { seq = 0; signature = []; entries = [] }

  -- Record.SetSeq
  unfoldable pub set_seq : Record → ℕ → Record
  set_seq rec i = record rec { seq = i }

  -- Record.Reset; seq is a uint64
  unfoldable pub reset : Record → Record
  reset rec = record { seq = (rec.seq + 1) % 18446744073709551616; signature = []; entries = [] }

  unfoldable pub lookup : Bytes → List Item → Result RecordError Value
  lookup k [] = err key_not_found
  lookup k ((key, v) ∷ es) = if bytes_eq key k then ok v else lookup k es

  -- Record.Load, by the decoder of the entry
  unfoldable pub load : {A : Type 0} → (Value → Decoded A) → Record → Bytes → Result RecordError A
  load unmarshal rec k = do v ← lookup k rec.entries; decoded (unmarshal v)

  -- entries.Sort: insertion, as sort.Sort does for up to twelve items
  unfoldable pub insert : Item → List Item → List Item
  insert e [] = e ∷ []
  insert e (b ∷ bs) =
      let rest = insert e bs in if bytes_lt (e.0) (b.0) then e ∷ b ∷ bs else b ∷ rest

  unfoldable pub sort_onto : List Item → List Item → List Item
  sort_onto sorted [] = sorted
  sort_onto sorted (e ∷ es) = sort_onto (insert e sorted) es

  -- Record.AddEntry, of an entry that is marshalled
  unfoldable pub add_entry : Record → Bytes → Value → Record
  add_entry rec k v = record rec { entries = sort_onto [] (rec.entries ++ ((k, v) ∷ [])) }

  -- Record.MarshalRLP
  unfoldable pub items_of : List Item → List Value
  items_of [] = []
  items_of ((k, v) ∷ es) = new_bytes k ∷ v ∷ items_of es

  unfoldable pub marshal_rlp : Record → Bytes
  marshal_rlp rec =
      marshal (new_array (new_bytes rec.signature ∷ new_uint rec.seq ∷ items_of rec.entries))

  -- the loop over the names and values of the entries
  unfoldable pub entries_of : List Value → Decoded (List Item)
  entries_of [] = ok []
  entries_of (k ∷ []) = err panic
  entries_of (k ∷ v ∷ vs) = do key ← bytes r k; rest ← entries_of vs; ok ((key, v) ∷ rest)

  -- the check that the items are sorted
  unfoldable pub check_from : Bytes → List Item → Result RecordError (Unit {0})
  check_from a [] = ok tt
  check_from a ((b, v) ∷ es) =
      let rest = check_from b es in
      if bytes_eq a b then err duplicated_key else if bytes_lt b a then err not_sorted else rest

  unfoldable pub check_sorted : List Item → Result RecordError (Unit {0})
  check_sorted [] = ok tt
  check_sorted ((a, v) ∷ es) = check_from a es

  -- Record.UnmarshalRLP
  unfoldable pub unmarshal_rlp : Bytes → Result RecordError Record
  unmarshal_rlp b = do
    v ← decoded (parsed r b)
    vs ← decoded (elems r v)
    guard (not (ltb (length vs) 2)) (codec bad)
    guard (length vs % 2 == 0) (codec bad)
    signature ← decoded (do x ← elem r vs 0; bytes r x)
    seq ← decoded (do x ← elem r vs 1; uint64 r x)
    entries ← decoded (entries_of (drop 2 vs))
    check_sorted entries
    ok (record { seq = seq; signature = signature; entries = entries })

  -- Record.Marshal and Unmarshal: base64.RawURLEncoding
  module _ (encode : Bytes → Bytes) (decode : Bytes → Option Bytes) where
    unfoldable pub marshal_text : Record → Bytes
    marshal_text rec = codes "enr:" ++ encode (marshal_rlp rec)

    unfoldable pub unmarshal_text : Bytes → Result RecordError Record
    unmarshal_text s = do
      guard (has_prefix s (codes "enr:")) no_prefix
      raw ← from_option not_base64 (decode (drop 4 s))
      unmarshal_rlp raw
