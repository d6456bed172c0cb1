-- ===== src/Enr/Entries.antt =====
-- The order of the entries of enr/enr.go.
use go_devp2p.Prelude.{
  ◌≡◌, refl, sym, ap, ◌∙◌, true, false, List, [], ◌∷◌, ◌++◌, append_assoc, append-nil, Bytes, ok,
  err, bytes_eq, bytes_eq_iff, bytes_eq_refl, bytes_lt, bytes_lt_irrefl, bytes_lt_trans,
  bytes_lt_connex, All, All-append, All-map, Bool-cases, inl, inr,
}
use go_devp2p.Rlp.{Rlp}
use go_devp2p.Enr.{
  key_not_found, Item, Record, lookup, insert, sort_onto, add_entry, check_from, check_sorted,
}

pub lt→ne : (a b : Bytes) → bytes_lt a b ≡ true → bytes_eq a b ≡ false
lt→ne a b h = elim (Bool-cases (bytes_eq a b)) [
  | inl e ↦
      let p : a ≡ b = (bytes_eq_iff a b).0 e in
      let q : bytes_lt a b ≡ false = rw p (bytes_lt_irrefl b) in absurd cc
  | inr e ↦ e
]

pub lt→nlt : (a b : Bytes) → bytes_lt a b ≡ true → bytes_lt b a ≡ false
lt→nlt a b h = elim (Bool-cases (bytes_lt b a)) [
  | inl e ↦ let p = bytes_lt_trans a b a h e in let q = bytes_lt_irrefl a in absurd cc
  | inr e ↦ e
]

lt_of_not : (a b : Bytes) → bytes_eq a b ≡ false → bytes_lt b a ≡ false → bytes_lt a b ≡ true
lt_of_not a b ne nlt = elim (Bool-cases (bytes_lt a b)) [
  | inl e ↦ e
  | inr e ↦ let p = (bytes_eq_iff a b).1 (bytes_lt_connex a b e nlt) in absurd cc
]

module _ (r : Rlp) where
  open r use {Value}

  -- The keys are above `a` and strictly ascend.
  abbrev pub AscendingFrom : Bytes → List (Item r) → Type 0
  AscendingFrom a [] = Unit
  AscendingFrom a ((b, v) ∷ es) = (bytes_lt a b ≡ true) × AscendingFrom b es

  abbrev pub Ascending : List (Item r) → Type 0
  Ascending [] = Unit
  Ascending ((b, v) ∷ es) = AscendingFrom b es

  pub check_from-AscendingFrom :
      (a : Bytes) (es : List (Item r)) → AscendingFrom a es → check_from r a es ≡ ok tt
  unfolding check_from
  check_from-AscendingFrom a [] h = refl
  check_from-AscendingFrom a ((b, v) ∷ es) h =
      rw (lt→ne a b h.0, lt→nlt a b h.0) (check_from-AscendingFrom b es h.1)

  pub check_sorted-Ascending : (es : List (Item r)) → Ascending es → check_sorted r es ≡ ok tt
  unfolding check_sorted
  check_sorted-Ascending [] h = refl
  check_sorted-Ascending ((b, v) ∷ es) h = check_from-AscendingFrom b es h

  insert_above :
      (k : Bytes) (v : Value) (acc : List (Item r))
      → All (λ b. bytes_lt (b.0) k ≡ true) acc
      → insert r (k, v) acc ≡ acc ++ ((k, v) ∷ [])
  unfolding insert
  insert_above k v [] h = refl
  insert_above k v ((b, w) ∷ acc) h = rw (lt→nlt b k h.0, insert_above k v acc h.1)

  -- All above `a` is above the list.
  abbrev Under : Bytes → List (Item r) → Type 0
  Under a = All (λ b. (c : Bytes) → bytes_lt a c ≡ true → bytes_lt (b.0) c ≡ true)

  sort_onto_sorted :
      (a : Bytes) (acc es : List (Item r))
      → Under a acc
      → AscendingFrom a es
      → sort_onto r acc es ≡ acc ++ es
  unfolding sort_onto
  sort_onto_sorted a acc [] u h = sym (append-nil acc)
  sort_onto_sorted a acc ((c, w) ∷ es) u h =
      let below = All-map _ _ (λ b f. f c h.0) acc u in
      let under =
        All-append _ acc ((c, w) ∷ [])
          (All-map _ _ (λ b f d lt. bytes_lt_trans (b.0) c d f lt) acc below) ((λ d lt. lt), tt) in
      rw (insert_above c w acc below)
        (sort_onto_sorted c (acc ++ ((c, w) ∷ [])) es under h.1 ∙ append_assoc acc ((c, w) ∷ []) es)

  sort_onto-append :
      (acc xs ys : List (Item r)) → sort_onto r acc (xs ++ ys) ≡ sort_onto r (sort_onto r acc xs) ys
  unfolding sort_onto
  sort_onto-append acc [] ys = refl
  sort_onto-append acc (x ∷ xs) ys = sort_onto-append (insert r x acc) xs ys

  -- Adding to sorted entries inserts.
  pub sort_onto-insert :
      (es : List (Item r)) (e : Item r)
      → Ascending es
      → sort_onto r [] (es ++ (e ∷ [])) ≡ insert r e es
  unfolding sort_onto insert
  sort_onto-insert [] e h = refl
  sort_onto-insert ((b, v) ∷ es) e h =
      sort_onto-append ((b, v) ∷ []) es (e ∷ [])
      ∙ ap (λ l. insert r e l) (sort_onto_sorted b ((b, v) ∷ []) es ((λ d lt. lt), tt) h)

  lookup_fresh :
      (k b : Bytes) (w : Value) (es : List (Item r))
      → lookup r k ((b, w) ∷ es) ≡ err key_not_found
      → (bytes_eq b k ≡ false) × (lookup r k es ≡ err key_not_found)
  unfolding lookup
  lookup_fresh k b w es h = elim (Bool-cases (bytes_eq b k)) [
    | inl e ↦ let p : lookup r k ((b, w) ∷ es) ≡ ok w = rw e in absurd cc
    | inr e ↦ let p : lookup r k ((b, w) ∷ es) ≡ lookup r k es = rw e in (e, sym p ∙ h)
  ]

  pub insert-AscendingFrom :
      (a k : Bytes) (v : Value) (es : List (Item r))
      → AscendingFrom a es
      → bytes_lt a k ≡ true
      → lookup r k es ≡ err key_not_found
      → AscendingFrom a (insert r (k, v) es)
  unfolding insert lookup
  insert-AscendingFrom a k v [] h lt fresh = (lt, tt)
  insert-AscendingFrom a k v ((b, w) ∷ es) h lt fresh = elim (Bool-cases (bytes_lt k b)) [
    | inl e ↦ rw e (lt, (e, h.1))
    | inr e ↦ rw e (
      h.0,
      insert-AscendingFrom b k v es h.1 (lt_of_not b k (lookup_fresh k b w es fresh).0 e)
          (lookup_fresh k b w es fresh).1,
    )
  ]

  insert-Ascending :
      (k : Bytes) (v : Value) (es : List (Item r))
      → Ascending es
      → lookup r k es ≡ err key_not_found
      → Ascending (insert r (k, v) es)
  unfolding insert
  insert-Ascending k v [] h fresh = tt
  insert-Ascending k v ((b, w) ∷ es) h fresh = elim (Bool-cases (bytes_lt k b)) [
    | inl e ↦ rw e (e, h)
    | inr e ↦ rw e (
        insert-AscendingFrom b k v es h (lt_of_not b k (lookup_fresh k b w es fresh).0 e)
          (lookup_fresh k b w es fresh).1)
  ]

  lookup-insert :
      (k : Bytes) (v : Value) (es : List (Item r))
      → lookup r k es ≡ err key_not_found
      → lookup r k (insert r (k, v) es) ≡ ok v
  unfolding insert lookup
  lookup-insert k v [] fresh = rw (bytes_eq_refl k)
  lookup-insert k v ((b, w) ∷ es) fresh = elim (Bool-cases (bytes_lt k b)) [
    | inl e ↦ rw (e, bytes_eq_refl k)
    | inr e ↦
        rw (e, (lookup_fresh k b w es fresh).0)
          (lookup-insert k v es (lookup_fresh k b w es fresh).1)
  ]

  lookup-insert_other :
      (j k : Bytes) (v : Value) (es : List (Item r))
      → bytes_eq k j ≡ false
      → lookup r j (insert r (k, v) es) ≡ lookup r j es
  unfolding insert lookup
  lookup-insert_other j k v [] ne = rw ne
  lookup-insert_other j k v ((b, w) ∷ es) ne = elim (Bool-cases (bytes_lt k b)) [
    | inl e ↦ rw (e, ne)
    | inr e ↦ rw (e, lookup-insert_other j k v es ne)
  ]

  -- Adding an entry under a new key to a record with strictly ascending keys leaves the keys
  -- strictly ascending; the new key has the value, and another key has what it had.
  pub add_entry-Ascending :
      (rec : Record r) (k : Bytes) (v : Value) (j : Bytes)
      → Ascending rec.entries
      → lookup r k rec.entries ≡ err key_not_found
      → bytes_eq k j ≡ false
      → let es = (add_entry r rec k v).entries in
        Ascending es × (lookup r k es ≡ ok v) × (lookup r j es ≡ lookup r j rec.entries)
  unfolding add_entry
  add_entry-Ascending rec k v j h fresh ne = rw (sort_onto-insert rec.entries (k, v) h) (
    insert-Ascending k v rec.entries h fresh,
    lookup-insert k v rec.entries fresh,
    lookup-insert_other j k v rec.entries ne,
  )
