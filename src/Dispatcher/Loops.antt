-- ===== src/Dispatcher/Loops.antt =====
-- The loops of container/heap, which periodic.go calls: they end, and only swap items.
use go_devp2p.Prelude.{
  ℕ, zero, suc, ◌+◌, ◌-◌, ◌*◌, ◌/◌, ◌<◌, ◌≤◌, ◌≡◌, refl, inl, inr, Bool, List, length,
  get_elem?-some, ltb, leb, ltb→lt, Bool-cases, ok, arith, ◌==◌,
}
use go_devp2p.Dispatcher.{Item, before, less, up, smaller_child, down, sift}
use go_devp2p.Dispatcher.Swaps.{Swapped, Swapped-refl, Swapped-trans, swap-Swapped}

pub less_total :
    (h : List Item) (i j : ℕ) → i < length h → j < length h → (r : Bool) × (less h i j ≡ ok r)
unfolding less
less_total h i j li lj =
    let (a, at_i) = get_elem?-some h i li in
    let (b, at_j) = get_elem?-some h j lj in (before a.next b.next, rw (less, at_i, at_j) refl)

-- up, from a place of the heap, with more rounds than the place
pub up-Swapped :
    (n fuel j : ℕ) (h : List Item)
    → j < fuel
    → j < n
    → n ≤ length h
    → (h' : List Item) × (up fuel j h ≡ ok h') × Swapped n h h'
unfolding up
up-Swapped n zero j h f lj l = absurd (omega arith)
up-Swapped n (suc fuel) j h f lj l =
    let i = (j - 1) / 2 in
    elim (Bool-cases (i == j)) [
      | inl e ↦ (h, rw (up, e) refl, Swapped-refl n h)
      | inr e ↦
          let above : i < j = ground arith in
          let (r, c) = less_total h j i (omega arith) (omega (arith, above)) in
          elim (Bool-cases r) [
            | inr s ↦ (h, rw (up, e, c, s) refl, Swapped-refl n h)
            | inl s ↦
                let (g, w, p) = swap-Swapped n i j h l (omega (arith, above)) lj in
                let (h', u, q) =
                  up-Swapped n fuel i g (omega (arith, above)) (omega (arith, above))
                    (omega (arith, p.same_length)) in
                (h', rw (up, e, c, s, w) u, Swapped-trans n p q)
          ]
    ]

-- the child that down looks at is in the heap
smaller_child-lt :
    (h : List Item) (j n : ℕ)
    → j < n
    → n ≤ length h
    → (k : ℕ) × (smaller_child h j n ≡ ok k) × (k < n) × (j ≤ k)
unfolding smaller_child
smaller_child-lt h j n l m = elim (Bool-cases (ltb (j + 1) n)) [
  | inr e ↦ (j, rw (smaller_child, e) refl, l, omega arith)
  | inl e ↦
      let next = ltb→lt (j + 1) n e in
      let (r, c) = less_total h (j + 1) j (omega (arith, next)) (omega arith) in
      elim (Bool-cases r) [
        | inl s ↦ (j + 1, rw (smaller_child, e, c, s) refl, next, omega arith)
        | inr s ↦ (j, rw (smaller_child, e, c, s) refl, l, omega arith)
      ]
]

-- down, with more rounds than there are places behind
pub down-Swapped :
    (fuel i n : ℕ) (h : List Item)
    → n - i < fuel
    → n ≤ length h
    → (h' : List Item) × (k : ℕ) × (down fuel i n h ≡ ok (h', k)) × Swapped n h h' × (i ≤ k)
unfolding down
down-Swapped zero i n h f l = absurd (omega arith)
down-Swapped (suc fuel) i n h f l = elim (Bool-cases (leb n (2 * i + 1))) [
  | inl e ↦ (h, i, rw (down, e) refl, Swapped-refl n h, omega arith)
  | inr e ↦
      let child : 2 * i + 1 < n = ground arith in
      let (j, c, lj, ij) = smaller_child-lt h (2 * i + 1) n child l in
      let (r, d) = less_total h j i (omega (arith, lj)) (omega (arith, child)) in
      elim (Bool-cases r) [
        | inr s ↦ (h, i, rw (down, e, c, d, s) refl, Swapped-refl n h, omega arith)
        | inl s ↦
            let (g, w, p) = swap-Swapped n i j h l (omega (arith, child)) lj in
            let (h', k, u, q, le) =
              down-Swapped fuel j n g (omega (arith, ij, child)) (omega (arith, p.same_length)) in
            (h', k, rw (down, e, c, d, s, w) u, Swapped-trans n p q, omega (arith, ij, le))
      ]
]

-- what Fix does, and Remove before it takes the last item off
pub sift-Swapped :
    (i n : ℕ) (h : List Item)
    → i < n
    → n ≤ length h
    → (h' : List Item) × (sift i n h ≡ ok h') × Swapped n h h'
unfolding sift
sift-Swapped i n h li ln =
    let (g, k, d, p, le) = down-Swapped (n + 1) i n h (omega arith) ln in
    elim (Bool-cases (ltb i k)) [
      | inl e ↦ (g, rw (sift, d, e) refl, p)
      | inr e ↦
          let (h', u, q) =
            up-Swapped n (i + 1) i g (omega arith) li (omega (arith, p.same_length)) in
          (h', rw (sift, d, e) u, Swapped-trans n p q)
    ]
