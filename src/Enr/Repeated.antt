-- ===== src/Enr/Repeated.antt =====
-- What comes of adding an entry of enr/enr.go under a key that is there.
use mathlib.Core.Path.{subst}
use go_devp2p.Prelude.{
  ◌≡◌, sym, ◌∙◌, true, false, List, [], ◌∷◌, Bytes, ok, err, bytes_eq, bytes_eq_iff, bytes_eq_refl,
  bytes_lt, bytes_lt_irrefl, bytes_lt_trans, Bool-cases, inl, inr,
}
use go_devp2p.Rlp.{Rlp}
use go_devp2p.Enr.{
  key_not_found, duplicated_key, Item, Record, lookup, insert, add_entry, check_from, check_sorted,
}
use go_devp2p.Enr.Entries.{lt→ne, lt→nlt, AscendingFrom, Ascending, sort_onto-insert}

module _ (r : Rlp) where
  open r use {Value}

  lookup_above :
      (a k : Bytes) (v : Value) (es : List (Item r))
      → AscendingFrom r a es
      → lookup r k es ≡ ok v
      → bytes_lt a k ≡ true
  unfolding lookup
  lookup_above a k v [] h e = cc
  lookup_above a k v ((b, u) ∷ es) h e = elim (Bool-cases (bytes_eq b k)) [
    | inl p ↦ let q : b ≡ k = (bytes_eq_iff b k).0 p in subst (λ c. bytes_lt a c ≡ true) q h.0
    | inr p ↦
        let q : lookup r k ((b, u) ∷ es) ≡ lookup r k es = rw p in
        bytes_lt_trans a b k h.0 (lookup_above b k v es h.1 (sym q ∙ e))
  ]

  check_from_same :
      (a k : Bytes) (w : Value) (es : List (Item r))
      → AscendingFrom r a es
      → a ≡ k
      → check_from r a (insert r (k, w) es) ≡ err duplicated_key
  unfolding check_from insert
  check_from_same a k w [] h e = rw (e, bytes_eq_refl k)
  check_from_same a k w ((b, u) ∷ es) h e =
      let lt : bytes_lt k b ≡ true = subst (λ c. bytes_lt c b ≡ true) e h.0 in
      rw (lt, e, bytes_eq_refl k)

  AtOrAfter : Bytes → Bytes → Value → List (Item r) → Type 0
  AtOrAfter b k w es =
      (bytes_lt k b ≡ false) × (check_from r b (insert r (k, w) es) ≡ err duplicated_key)

  same :
      (b k : Bytes) (w : Value) (es : List (Item r))
      → AscendingFrom r b es
      → bytes_eq b k ≡ true
      → AtOrAfter b k w es
  unfolding AtOrAfter
  same b k w es h p =
      let q : b ≡ k = (bytes_eq_iff b k).0 p in
      (subst (λ c. bytes_lt k c ≡ false) (sym q) (bytes_lt_irrefl k), check_from_same b k w es h q)

  -- A key that is the first or found further on is met by its repetition.
  check_from_repeated :
      (b k : Bytes) (u v w : Value) (es : List (Item r))
      → AscendingFrom r b es
      → lookup r k ((b, u) ∷ es) ≡ ok v
      → AtOrAfter b k w es
  unfolding AtOrAfter lookup insert check_from
  check_from_repeated b k u v w [] h e = elim (Bool-cases (bytes_eq b k)) [
    | inl p ↦ same b k w [] h p
    | inr p ↦ let q : lookup r k ((b, u) ∷ []) ≡ err key_not_found = rw p in absurd cc
  ]
  check_from_repeated b k u v w ((c, x) ∷ es) h e = elim (Bool-cases (bytes_eq b k)) [
    | inl p ↦ same b k w ((c, x) ∷ es) h p
    | inr p ↦
        let q : lookup r k ((b, u) ∷ (c, x) ∷ es) ≡ lookup r k ((c, x) ∷ es) = rw p in
        let e' : lookup r k ((c, x) ∷ es) ≡ ok v = sym q ∙ e in
        let (nlt, rest) = check_from_repeated c k x v w es h.1 e' in
        (
          lt→nlt b k (lookup_above b k v ((c, x) ∷ es) h e'),
          rw (nlt, lt→ne b c h.0, lt→nlt b c h.0, rest),
        )
  ]

  sorted_repeated :
      (k : Bytes) (v w : Value) (es : List (Item r))
      → Ascending r es
      → lookup r k es ≡ ok v
      → check_sorted r (insert r (k, w) es) ≡ err duplicated_key
  unfolding AtOrAfter check_sorted insert lookup
  sorted_repeated k v w [] h e = cc
  sorted_repeated k v w ((b, u) ∷ es) h e =
      let (nlt, rest) = check_from_repeated b k u v w es h e in rw (nlt, rest)

  -- Adding an entry under a key that the record has does not replace it: the entries are refused by
  -- the check that the decoder makes.
  pub add_entry_repeated :
      (rec : Record r) (k : Bytes) (v w : Value)
      → Ascending r rec.entries
      → lookup r k rec.entries ≡ ok v
      → check_sorted r (add_entry r rec k w).entries ≡ err duplicated_key
  unfolding add_entry
  add_entry_repeated rec k v w h e =
      rw (sort_onto-insert r rec.entries (k, w) h) (sorted_repeated k v w rec.entries h e)
