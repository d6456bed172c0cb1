-- ===== src/Kademlia/Bucket/Move.antt =====
-- MoveToFront on a bucket without repeated identifiers.
use go_devp2p.Prelude.{
  ℕ, zero, suc, ◌+◌, ◌≤◌, ◌≡◌, ◌≢◌, refl, sym, ◌∙◌, inl, inr, true, false, [], ◌∷◌, Bytes, bytes_eq,
  bytes_eq_iff, bytes_eq_refl, length, length-reverse_onto, reverse_onto, if◌then◌else◌, ok, err,
  All, Bool-cases, arith,
}
use go_devp2p.Kademlia.Bucket.{Entry, Bucket, move_loop, move_to_front, diverges}

-- No identifier stands twice in the bucket.
abbrev pub Distinct : Bucket → Type 0
Distinct [] = Unit
Distinct (e ∷ es) = All (λ (f : Entry). f.id ≢ e.id) es × Distinct es

-- The bucket with the first entry of that identifier in front, the others in their order.
unfoldable pub to_front_from : Bytes → Bucket → Bucket → Bucket
to_front_from id seen [] = reverse_onto seen []
to_front_from id seen (e ∷ es) =
    let rest = to_front_from id (e ∷ seen) es in
    if bytes_eq e.id id then e ∷ reverse_onto seen es else rest

abbrev Other : Bytes → Entry → Type 0
Other id e = bytes_eq e.id id ≡ false

-- Past the entry nothing matches, and the loop ends with the list as it is.
move_loop_rest :
    (fuel : ℕ) (id : Bytes) (seen es : Bucket)
    → length es ≤ fuel
    → All (Other id) es
    → move_loop fuel id seen es ≡ ok (reverse_onto seen es)
unfolding move_loop
move_loop_rest fuel id seen [] h a = refl
move_loop_rest zero id seen (e ∷ es) h a = absurd (omega arith)
move_loop_rest (suc fuel) id seen (e ∷ es) h a =
    rw a.0 (move_loop_rest fuel id (e ∷ seen) es (omega arith) a.1)

Other-reverse_onto :
    (id : Bytes) (xs ys : Bucket)
    → All (Other id) xs
    → All (Other id) ys
    → All (Other id) (reverse_onto xs ys)
Other-reverse_onto id [] ys hx hy = hy
Other-reverse_onto id (x ∷ xs) ys hx hy = Other-reverse_onto id xs (x ∷ ys) hx.1 (hx.0, hy)

Other_of_ne : (id : Bytes) (x : Bytes) → x ≢ id → bytes_eq x id ≡ false
Other_of_ne id x h = elim (Bool-cases (bytes_eq x id)) [
  | inl e ↦ absurd (h ((bytes_eq_iff x id).0 e))
  | inr e ↦ e
]

Others_of_Distinct :
    (id : Bytes) (e : Entry) (es : Bucket)
    → e.id ≡ id
    → All (λ (f : Entry). f.id ≢ e.id) es
    → All (Other id) es
Others_of_Distinct id e [] p h = tt
Others_of_Distinct id e (f ∷ es) p h =
    (Other_of_ne id f.id (λ q. h.0 (q ∙ sym p)), Others_of_Distinct id e es p h.1)

move_loop-to_front :
    (fuel : ℕ) (id : Bytes) (seen es : Bucket)
    → length seen + length es + length es ≤ fuel
    → All (Other id) seen
    → Distinct es
    → move_loop fuel id seen es ≡ ok (to_front_from id seen es)
unfolding move_loop to_front_from
move_loop-to_front fuel id seen [] h a d = refl
move_loop-to_front zero id seen (e ∷ es) h a d = absurd (omega arith)
move_loop-to_front (suc fuel) id seen (e ∷ es) h a d = elim (Bool-cases (bytes_eq e.id id)) [
  | inl p ↦ rw p (
      move_loop_rest fuel id (e ∷ []) (reverse_onto seen es)
        (omega (arith, length-reverse_onto seen es))
        (Other-reverse_onto id seen es a
          (Others_of_Distinct id e es ((bytes_eq_iff e.id id).0 p) d.0)))
  | inr p ↦ rw p (move_loop-to_front fuel id (e ∷ seen) es (omega arith) (p, a) d.1)
]

-- In a bucket without repeated identifiers the loop of MoveToFront ends within two rounds for each
-- entry, and the entry that it looks for, if there is one, is then in front of the others.
pub move_to_front-Distinct :
    (fuel : ℕ) (id : Bytes) (b : Bucket)
    → length b + length b ≤ fuel
    → Distinct b
    → move_to_front fuel id b ≡ ok (to_front_from id [] b)
unfolding move_to_front
move_to_front-Distinct fuel id b h d = move_loop-to_front fuel id [] b (omega arith) tt d

move_loop_repeats :
    (fuel : ℕ) (id : Bytes) (e f : Entry) (es : Bucket)
    → bytes_eq e.id id ≡ true
    → bytes_eq f.id id ≡ true
    → move_loop fuel id (e ∷ []) (f ∷ es) ≡ err diverges
unfolding move_loop
move_loop_repeats zero id e f es p q = refl
move_loop_repeats (suc fuel) id e f es p q = rw q (move_loop_repeats fuel id f e es q p)

-- With one identifier twice at the head of a bucket the loop of MoveToFront never ends.
pub move_to_front_repeats :
    (fuel : ℕ) (e f : Entry) (es : Bucket)
    → e.id ≡ f.id
    → move_to_front fuel f.id (e ∷ f ∷ es) ≡ err diverges
unfolding move_to_front move_loop
move_to_front_repeats zero e f es p = refl
move_to_front_repeats (suc fuel) e f es p =
    let q = (bytes_eq_iff e.id f.id).1 p in
    rw q (move_loop_repeats fuel f.id e f es q (bytes_eq_refl f.id))
