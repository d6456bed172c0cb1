-- ===== src/Kademlia/Bucket/Taken.antt =====
-- One entry taken out of a bucket: what Remove and MoveToFront have in common.
use go_devp2p.Prelude.{
  suc, ◌≡◌, ◌≢◌, refl, sym, ap, ◌∙◌, inl, inr, true, false, [], ◌∷◌, Bytes, bytes_eq, bytes_eq_iff,
  length, reverse_onto, All, In, All-In, All-of_In, Bool-cases, arith,
}
use go_devp2p.Kademlia.Bucket.{Entry, Bucket, has, remove}
use go_devp2p.Kademlia.Bucket.Move.{Distinct, to_front_from}

-- `es` is `rest` with the entry put in at some place.
pub data Taken (e : Entry) : Bucket → Bucket → Type 0 where
  here : (es : Bucket) → Taken e es (e ∷ es)
  there : (x : Entry) {rest es : Bucket} → Taken e rest es → Taken e (x ∷ rest) (x ∷ es)

pub Taken-In :
    {e : Entry} {rest es : Bucket} (x : Entry) → Taken e rest es → In x es → In x (e ∷ rest)
Taken-In x (here es) h = h
Taken-In x (there y t) (inl p) = inr (inl p)
Taken-In x (there y t) (inr h) = elim (Taken-In x t h) [ inl p ↦ inl p | inr m ↦ inr (inr m) ]

pub In-Taken :
    {e : Entry} {rest es : Bucket} (x : Entry) → Taken e rest es → In x (e ∷ rest) → In x es
In-Taken x (here es) h = h
In-Taken x (there y t) (inl p) = inr (In-Taken x t (inl p))
In-Taken x (there y t) (inr (inl p)) = inl p
In-Taken x (there y t) (inr (inr h)) = inr (In-Taken x t (inr h))

pub length-Taken : {e : Entry} {rest es : Bucket} → Taken e rest es → length es ≡ suc (length rest)
length-Taken (here es) = refl
length-Taken (there y t) = ap suc (length-Taken t)

pub Distinct-Taken :
    {e : Entry} {rest es : Bucket} → Taken e rest es → Distinct es → Distinct (e ∷ rest)
Distinct-Taken (here es) d = d
Distinct-Taken {e} (there y {rest} {es} t) d =
    let r = Distinct-Taken t d.1 in
    let apart = All-In (λ f. f.id ≢ y.id) es d.0 in
    (
      (λ p. apart e (In-Taken e t (inl refl)) (sym p), r.0),
      (All-of_In (λ f. f.id ≢ y.id) rest (λ x m. apart x (In-Taken x t (inr m))), r.1),
    )

-- Remove takes the entry out, and tells whether there was one.
pub remove-Taken :
    (id : Bytes) (b : Bucket)
    → has id b ≡ true
    → (e : Entry) × (rest : Bucket) × (remove id b ≡ (rest, true)) × (e.id ≡ id) × Taken e rest b
unfolding has remove
remove-Taken id [] h = cc
remove-Taken id (e ∷ es) h = elim (Bool-cases (bytes_eq e.id id)) [
  | inl p ↦ (e, es, rw p, (bytes_eq_iff e.id id).0 p, here es)
  | inr p ↦
      let (f, rest, q, i, t) = remove-Taken id es (rw p at h) in
      (f, e ∷ rest, rw (p, q), i, there e t)
]

pub remove_absent : (id : Bytes) (b : Bucket) → has id b ≡ false → remove id b ≡ (b, false)
unfolding has remove
remove_absent id [] h = refl
remove_absent id (e ∷ es) h = elim (Bool-cases (bytes_eq e.id id)) [
  | inl p ↦ absurd (cc (rw p at h))
  | inr p ↦ rw (p, remove_absent id es (rw p at h))
]

-- The entry in front, the others in their order.
pub to_front-Taken :
    (id : Bytes) (seen b : Bucket)
    → has id b ≡ true
    → (e : Entry) × (rest : Bucket) × (to_front_from id seen b ≡ e ∷ reverse_onto seen rest)
      × (e.id ≡ id)
      × Taken e rest b
unfolding has to_front_from
to_front-Taken id seen [] h = cc
to_front-Taken id seen (e ∷ es) h = elim (Bool-cases (bytes_eq e.id id)) [
  | inl p ↦ (e, es, rw p, (bytes_eq_iff e.id id).0 p, here es)
  | inr p ↦
      let (f, rest, q, i, t) = to_front-Taken id (e ∷ seen) es (rw p at h) in
      (f, e ∷ rest, rw (p, q), i, there e t)
]

pub has-In : (id : Bytes) (b : Bucket) (e : Entry) → In e b → e.id ≡ id → has id b ≡ true
unfolding has
has-In id [] e m q = absurd m
has-In id (f ∷ es) e (inl p) q =
    let r : bytes_eq f.id id ≡ true =
      (bytes_eq_iff f.id id).1 (sym (ap (λ (x : Entry). x.id) p) ∙ q) in
    rw r
has-In id (f ∷ es) e (inr m) q = ground (arith, has-In id es e m q)

pub In-has : (id : Bytes) (b : Bucket) → has id b ≡ false → All (λ (e : Entry). e.id ≢ id) b
unfolding has
In-has id [] h = tt
In-has id (e ∷ es) h = elim (Bool-cases (bytes_eq e.id id)) [
  | inl p ↦ absurd (cc (rw p at h))
  | inr p ↦ (λ q. cc (p, (bytes_eq_iff e.id id).1 q), In-has id es (rw p at h))
]
