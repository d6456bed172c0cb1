-- ===== src/Enr/RoundTrip.antt =====
-- The records of enr/enr.go encoded and then decoded.
use go_devp2p.Prelude.{
  suc, ◌*◌, ◌%◌, ◌^◌, ◌<◌, ◌≡◌, refl, ◌∙◌, true, false, Option, some, List, [], ◌∷◌, Bytes, length,
  ◌==◌, ltb, ok, err, ◌>>=◌, codes, has_prefix-append, arith,
}
use go_devp2p.Rlp.{Rlp}
use go_devp2p.Enr.{
  duplicated_key, Item, Record, lookup, add_entry, items_of, entries_of, check_sorted, marshal_rlp,
  unmarshal_rlp, marshal_text, unmarshal_text,
}
use go_devp2p.Enr.Repeated.{add_entry_repeated}
use go_devp2p.Enr.Entries.{Ascending, check_sorted-Ascending}

module _ (r : Rlp) where
  open r use {Value, elems_of_array, uint64_of_uint, bytes_of_bytes, parse_of_marshal}

  entries_of-items_of : (es : List (Item r)) → entries_of r (items_of r es) ≡ ok es
  unfolding entries_of items_of
  entries_of-items_of [] = refl
  entries_of-items_of ((k, v) ∷ es) = rw (bytes_of_bytes k, entries_of-items_of es)

  length-items_of : (es : List (Item r)) → length (items_of r es) ≡ 2 * length es
  unfolding items_of
  length-items_of [] = refl
  length-items_of ((k, v) ∷ es) = omega (arith, length-items_of es)

  -- The decoder gives back the record, if the items pass its check, or the check's error.
  unmarshal_rlp-check :
      (rec : Record r)
      → rec.seq < 2 ^ 64
      → unmarshal_rlp r (marshal_rlp r rec) ≡ (check_sorted r rec.entries >>= λ _. ok rec)
  unfolding unmarshal_rlp marshal_rlp
  unmarshal_rlp-check rec h =
      let e : length (items_of r rec.entries) % 2 ≡ 0 =
        omega (arith, length-items_of rec.entries) in
      let even : ((suc (suc (length (items_of r rec.entries))) % 2) == 0) ≡ true = ground arith in
      let two : ltb (suc (suc (length (items_of r rec.entries)))) 2 ≡ false = ground arith in
      rw (
        parse_of_marshal
            (r.new_array (r.new_bytes rec.signature ∷ r.new_uint rec.seq ∷ items_of r rec.entries)),
        elems_of_array (r.new_bytes rec.signature ∷ r.new_uint rec.seq ∷ items_of r rec.entries),
        two,
        even,
        bytes_of_bytes rec.signature,
        uint64_of_uint rec.seq h,
        entries_of-items_of rec.entries,
      )

  module _ (encode : Bytes → Bytes) (decode : Bytes → Option Bytes)
      (decode_encode : (b : Bytes) → decode (encode b) ≡ some b) where
    unmarshal_text-check :
        (rec : Record r)
        → rec.seq < 2 ^ 64
        → unmarshal_text r encode decode (marshal_text r encode decode rec)
          ≡ (check_sorted r rec.entries >>= λ _. ok rec)
    unfolding unmarshal_text marshal_text
    unmarshal_text-check rec h =
        rw
          (
            has_prefix-append (codes "enr:") (encode (marshal_rlp r rec)),
            decode_encode (marshal_rlp r rec),
          )
          (unmarshal_rlp-check rec h)

    -- The text of a record with strictly ascending keys and a sequence number of 64 bits is decoded
    -- to the record, where the base64 decoder gives back what was encoded.
    pub unmarshal_text-marshal_text :
        (rec : Record r)
        → rec.seq < 2 ^ 64
        → Ascending r rec.entries
        → unmarshal_text r encode decode (marshal_text r encode decode rec) ≡ ok rec
    unmarshal_text-marshal_text rec h asc =
        unmarshal_text-check rec h ∙ rw (check_sorted-Ascending r rec.entries asc)

    seq-add_entry : (rec : Record r) (k : Bytes) (w : Value) → (add_entry r rec k w).seq ≡ rec.seq
    unfolding add_entry
    seq-add_entry rec k w = refl

    -- A record with strictly ascending keys and a sequence number of 64 bits to which an entry is
    -- added under a key it has already is written to a text that the decoder refuses, for the
    -- repeated key, where the base64 decoder gives back what was encoded.
    pub unmarshal_text-add_entry :
        (rec : Record r) (k : Bytes) (v w : Value)
        → rec.seq < 2 ^ 64
        → Ascending r rec.entries
        → lookup r k rec.entries ≡ ok v
        → unmarshal_text r encode decode (marshal_text r encode decode (add_entry r rec k w))
          ≡ err duplicated_key
    unmarshal_text-add_entry rec k v w h asc e =
        unmarshal_text-check (add_entry r rec k w) (omega (arith, seq-add_entry rec k w))
        ∙ rw (add_entry_repeated r rec k v w asc e)
