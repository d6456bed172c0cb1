-- ===== src/Kademlia/Sorting/Order.antt =====
-- The order of the sorted peers of discovery/kademlia/sorting.go.
use go_devp2p.Prelude.{
  ℕ, suc, ◌≡◌, refl, inl, inr, true, false, List, [], ◌∷◌, take, bytes_lt, bytes_lt_irrefl,
  bytes_lt_trans, bytes_lt_connex, All, Bool-cases, zero, In, ◌⊎◌, ap, ◌∙◌, length,
}
use go_devp2p.Kademlia.Key.{less}
use go_devp2p.Kademlia.Sorting.{PeerDistance, closer, insert, sort}

-- Of two neighbours the second is not closer.
abbrev pub OrderedFrom : PeerDistance → List PeerDistance → Type 0
OrderedFrom a [] = Unit
OrderedFrom a (b ∷ bs) = (closer b a ≡ false) × OrderedFrom b bs

abbrev pub Ordered : List PeerDistance → Type 0
Ordered [] = Unit
Ordered (a ∷ as') = OrderedFrom a as'

closer-asym : (a b : PeerDistance) → closer a b ≡ true → closer b a ≡ false
unfolding closer less
closer-asym a b h = elim (Bool-cases (bytes_lt b.distance a.distance)) [
  | inl e ↦
      let p = bytes_lt_trans a.distance b.distance a.distance h e in
      let q = bytes_lt_irrefl a.distance in absurd cc
  | inr e ↦ e
]

insert-OrderedFrom :
    (lo a : PeerDistance) (bs : List PeerDistance)
    → OrderedFrom lo bs
    → closer a lo ≡ false
    → OrderedFrom lo (insert a bs)
unfolding insert
insert-OrderedFrom lo a [] h n = (n, tt)
insert-OrderedFrom lo a (b ∷ bs) h n = elim (Bool-cases (closer b a)) [
  | inl e ↦ rw e (h.0, insert-OrderedFrom b a bs h.1 (closer-asym b a e))
  | inr e ↦ rw e (n, (e, h.1))
]

insert-Ordered : (a : PeerDistance) (bs : List PeerDistance) → Ordered bs → Ordered (insert a bs)
unfolding insert
insert-Ordered a [] h = tt
insert-Ordered a (b ∷ bs) h = elim (Bool-cases (closer b a)) [
  | inl e ↦ rw e (insert-OrderedFrom b a bs h (closer-asym b a e))
  | inr e ↦ rw e (e, h)
]

pub sort-Ordered : (xs : List PeerDistance) → Ordered (sort xs)
unfolding sort
sort-Ordered [] = tt
sort-Ordered (a ∷ xs) = insert-Ordered a (sort xs) (sort-Ordered xs)

take-OrderedFrom :
    (n : ℕ) (a : PeerDistance) (bs : List PeerDistance)
    → OrderedFrom a bs
    → OrderedFrom a (take n bs)
take-OrderedFrom zero a bs h = tt
take-OrderedFrom (suc n) a [] h = tt
take-OrderedFrom (suc n) a (b ∷ bs) h = (h.0, take-OrderedFrom n b bs h.1)

pub take-Ordered : (n : ℕ) (bs : List PeerDistance) → Ordered bs → Ordered (take n bs)
take-Ordered zero bs h = tt
take-Ordered (suc n) [] h = tt
take-Ordered (suc n) (b ∷ bs) h = take-OrderedFrom n b bs h

module _ (P : PeerDistance → Type 0) where
  insert-All : (a : PeerDistance) (bs : List PeerDistance) → P a → All P bs → All P (insert a bs)
  unfolding insert
  insert-All a [] p h = (p, tt)
  insert-All a (b ∷ bs) p h = elim (Bool-cases (closer b a)) [
    | inl e ↦ rw e (h.0, insert-All a bs p h.1)
    | inr e ↦ rw e (p, h)
  ]

  pub sort-All : (xs : List PeerDistance) → All P xs → All P (sort xs)
  unfolding sort
  sort-All [] h = tt
  sort-All (a ∷ xs) h = insert-All a (sort xs) h.0 (sort-All xs h.1)

  pub take-All : (n : ℕ) (xs : List PeerDistance) → All P xs → All P (take n xs)
  take-All zero xs h = tt
  take-All (suc n) [] h = tt
  take-All (suc n) (x ∷ xs) h = (h.0, take-All n xs h.1)

insert-In : (x a : PeerDistance) (bs : List PeerDistance) → (x ≡ a) ⊎ In x bs → In x (insert a bs)
unfolding insert
insert-In x a [] (inl e) = inl e
insert-In x a [] (inr m) = absurd m
insert-In x a (b ∷ bs) m = elim (Bool-cases (closer b a)) [
  | inr e ↦ rw e m
  | inl e ↦ rw e (elim m [
    | inl q ↦ inr (insert-In x a bs (inl q))
    | inr (inl q) ↦ inl q
    | inr (inr q) ↦ inr (insert-In x a bs (inr q))
  ])
]

pub sort-In : (x : PeerDistance) (xs : List PeerDistance) → In x xs → In x (sort xs)
unfolding sort
sort-In x [] m = absurd m
sort-In x (a ∷ xs) (inl e) = insert-In x a (sort xs) (inl e)
sort-In x (a ∷ xs) (inr m) = insert-In x a (sort xs) (inr (sort-In x xs m))

-- no closer than one that is no closer
closer_trans : (a b c : PeerDistance) → closer b a ≡ false → closer c b ≡ false → closer c a ≡ false
unfolding closer less
closer_trans a b c p q = elim (Bool-cases (bytes_lt c.distance a.distance)) [
  | inr e ↦ e
  | inl e ↦ elim (Bool-cases (bytes_lt a.distance b.distance)) [
    | inl l ↦ absurd (cc (bytes_lt_trans c.distance a.distance b.distance e l, q))
    | inr l ↦ let same = bytes_lt_connex a.distance b.distance l p in absurd (cc (q, e, same))
  ]
]

-- what is in an ordered list is no closer than its head
OrderedFrom-In :
    (a x : PeerDistance) (bs : List PeerDistance) → OrderedFrom a bs → In x bs → closer x a ≡ false
OrderedFrom-In a x [] h m = absurd m
OrderedFrom-In a x (b ∷ bs) h (inl e) = ap (λ y. closer y a) e ∙ h.0
OrderedFrom-In a x (b ∷ bs) h (inr m) = closer_trans a b x h.0 (OrderedFrom-In b x bs h.1 m)

OrderedFrom-Ordered : (a : PeerDistance) (bs : List PeerDistance) → OrderedFrom a bs → Ordered bs
OrderedFrom-Ordered a [] h = tt
OrderedFrom-Ordered a (b ∷ bs) h = h.1

-- Of an ordered list what is not among the first `n` is no closer than each of them.
pub take-In :
    (n : ℕ) (x : PeerDistance) (xs : List PeerDistance)
    → Ordered xs
    → In x xs
    → In x (take n xs) ⊎ ((length (take n xs) ≡ n) × All (λ d. closer x d ≡ false) (take n xs))
take-In zero x xs h m = inr (refl, tt)
take-In (suc n) x [] h m = absurd m
take-In (suc n) x (a ∷ xs) h (inl e) = inl (inl e)
take-In (suc n) x (a ∷ xs) h (inr m) = elim (take-In n x xs (OrderedFrom-Ordered a xs h) m) [
  | inl q ↦ inl (inr q)
  | inr (size, far) ↦ inr (ap suc size, (OrderedFrom-In a x xs h m, far))
]
