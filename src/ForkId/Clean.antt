-- ===== src/ForkId/Clean.antt =====
-- cleanForks of forkid/forkid.go: the order and the members of what it returns.
use go_devp2p.Prelude.{
  ℕ, zero, suc, ◌-◌, ◌≤◌, ◌<◌, ◌≡◌, refl, sym, ap, ◌∙◌, ◌⊎◌, ◌↔◌, inl, inr, false, none, some, List,
  [], ◌∷◌, ◌++◌, length, length-set, set, take, drop, append_assoc, append-nil, leb, ltb, ◌==◌,
  if◌then◌else◌, In, Bool-cases, arith,
}
use mathlib.Core.Path.{subst}
use go_devp2p.ForkId.{insert, sort, at, dedup_loop, skip_zeros, clean_forks}

-- Each number is above the one before it.
abbrev pub Ascending : ℕ → List ℕ → Type 0
Ascending lo [] = Unit
Ascending lo (x ∷ xs) = (lo < x) × Ascending x xs

abbrev Sorted : ℕ → List ℕ → Type 0
Sorted lo [] = Unit
Sorted lo (x ∷ xs) = (lo ≤ x) × Sorted x xs

insert-Sorted : (lo a : ℕ) (xs : List ℕ) → lo ≤ a → Sorted lo xs → Sorted lo (insert a xs)
unfolding insert
insert-Sorted lo a [] h s = (h, tt)
insert-Sorted lo a (x ∷ xs) h s = elim (Bool-cases (leb a x)) [
  | inl e ↦ rw e (h, ground arith)
  | inr e ↦ rw e (s.0, insert-Sorted x a xs (ground arith) s.1)
]

sort-Sorted : (xs : List ℕ) → Sorted 0 (sort xs)
unfolding sort
sort-Sorted [] = tt
sort-Sorted (x ∷ xs) = insert-Sorted 0 x (sort xs) (omega arith) (sort-Sorted xs)

In-insert : (a b : ℕ) (xs : List ℕ) → In b (insert a xs) ↔ ((b ≡ a) ⊎ In b xs)
unfolding insert
In-insert a b [] = (λ h. h, λ h. h)
In-insert a b (x ∷ xs) = elim (Bool-cases (leb a x)) [
  | inl e ↦ rw e (λ h. h, λ h. h)
  | inr e ↦ rw e (
    elim [
      | inl p ↦ inr (inl p)
      | inr m ↦ elim ((In-insert a b xs).0 m) [ inl q ↦ inl q | inr r ↦ inr (inr r) ]
    ],
    elim [
      | inl q ↦ inr ((In-insert a b xs).1 (inl q))
      | inr (inl p) ↦ inl p
      | inr (inr r) ↦ inr ((In-insert a b xs).1 (inr r))
    ],
  )
]

In-sort : (b : ℕ) (xs : List ℕ) → In b (sort xs) ↔ In b xs
unfolding sort
In-sort b [] = (λ h. h, λ h. h)
In-sort b (x ∷ xs) = (
  λ h. elim ((In-insert x b (sort xs)).0 h) [ inl p ↦ inl p | inr m ↦ inr ((In-sort b xs).0 m) ],
  λ h. (In-insert x b (sort xs)).1 (elim h [ inl p ↦ inl p | inr m ↦ inr ((In-sort b xs).1 m) ]),
)

-- The list without a number that repeats the one before it.
dedup : ℕ → List ℕ → List ℕ
dedup prev [] = []
dedup prev (x ∷ xs) = let rest = dedup x xs in if x == prev then rest else x ∷ rest

take-set_self :
    (j : ℕ) (xs : List ℕ) (v : ℕ) → j < length xs → take (suc j) (set xs j v) ≡ take j xs ++ v ∷ []
take-set_self j [] v h = absurd (omega arith)
take-set_self zero (x ∷ xs) v h = refl
take-set_self (suc j) (x ∷ xs) v h = ap (λ r. x ∷ r) (take-set_self j xs v (omega arith))

drop-set : (i j : ℕ) (xs : List ℕ) (v : ℕ) → j < i → drop i (set xs j v) ≡ drop i xs
drop-set zero j xs v h = absurd (omega arith)
drop-set (suc i) j [] v h = refl
drop-set (suc i) zero (x ∷ xs) v h = refl
drop-set (suc i) (suc j) (x ∷ xs) v h = drop-set i j xs v (omega arith)

drop-cons :
    (i : ℕ) (xs : List ℕ) (y : ℕ) (ys : List ℕ)
    → drop i xs ≡ y ∷ ys
    → (drop (suc i) xs ≡ ys) × (at xs i ≡ y) × (i < length xs)
drop-cons zero [] y ys h = cc
drop-cons zero (x ∷ xs) y ys h = (cc, cc, omega arith)
drop-cons (suc i) [] y ys h = cc
drop-cons (suc i) (x ∷ xs) y ys h = let r = drop-cons i xs y ys h in (r.0, r.1, omega (arith, r.2))

at-set :
    (i j : ℕ) (xs : List ℕ) (v : ℕ) → j ≤ i → at xs i ≡ v → i < length xs → at (set xs j v) i ≡ v
at-set i j [] v h e l = absurd (omega arith)
at-set zero zero (x ∷ xs) v h e l = refl
at-set zero (suc j) (x ∷ xs) v h e l = absurd (omega arith)
at-set (suc i) zero (x ∷ xs) v h e l = e
at-set (suc i) (suc j) (x ∷ xs) v h e l = at-set i j xs v (omega arith) e (omega arith)

-- The loop over the array leaves the numbers that do not repeat in front of index `j`.
dedup_loop-dedup :
    (rest : List ℕ) (i j prev : ℕ) (fs : List ℕ)
    → drop (suc i) fs ≡ rest
    → at fs i ≡ prev
    → j ≤ suc i
    → suc i ≤ length fs
    → let r = dedup_loop (length rest) (suc i) j fs in
      (take r.1 r.0 ≡ take j fs ++ dedup prev rest) × (length r.0 ≡ length fs) × (r.1 ≤ length fs)
unfolding dedup_loop dedup
dedup_loop-dedup [] i j prev fs d p h l = (sym (append-nil (take j fs)), refl, omega arith)
dedup_loop-dedup (x ∷ rest) i j prev fs d p h l =
    let (d', a, n) = drop-cons (suc i) fs x rest d in
    let p' : at fs (suc i - 1) ≡ prev =
      ap (λ k. at fs k) (let q : suc i - 1 ≡ i = omega arith in q) ∙ p in
    elim (Bool-cases (x == prev)) [
      | inl e ↦
          rw (a, p', e) (dedup_loop-dedup rest (suc i) j x fs d' a (omega arith) (omega arith))
      | inr e ↦
          let (t, l', m) =
            dedup_loop-dedup rest (suc i) (suc j) x (set fs j x)
              (drop-set (suc (suc i)) j fs x (omega arith) ∙ d')
              (at-set (suc i) j fs x (omega arith) a n) (omega arith)
              (omega (arith, length-set fs j x)) in
          rw (a, p', e)
            (
              t
                  ∙ ap (λ r. r ++ dedup x rest) (take-set_self j fs x (omega arith))
                  ∙ append_assoc (take j fs) (x ∷ []) (dedup x rest),
              l' ∙ length-set fs j x,
              omega (arith, m, length-set fs j x),
            )
    ]

dedup-Ascending : (prev : ℕ) (xs : List ℕ) → Sorted prev xs → Ascending prev (dedup prev xs)
unfolding dedup
dedup-Ascending prev [] s = tt
dedup-Ascending prev (x ∷ xs) s = elim (Bool-cases (x == prev)) [
  | inl e ↦ rw e (
      let q : x ≡ prev = ground arith in
      subst (λ k. Ascending k (dedup x xs)) q (dedup-Ascending x xs s.1))
  | inr e ↦ rw e (ground (arith, s.0), dedup-Ascending x xs s.1)
]

In-dedup : (b prev : ℕ) (xs : List ℕ) → In b (prev ∷ dedup prev xs) ↔ In b (prev ∷ xs)
unfolding dedup
In-dedup b prev [] = (λ h. h, λ h. h)
In-dedup b prev (x ∷ xs) =
    let ih = In-dedup b x xs in
    elim (Bool-cases (x == prev)) [
      | inl e ↦
          let q : x ≡ prev = ground arith in
          rw (e, ← q)
            (
              λ h. elim h [ inl p ↦ inl p | inr m ↦ inr (ih.0 (inr m)) ],
              elim [ inl p ↦ inl p | inr m ↦ ih.1 m ],
            )
      | inr e ↦ rw e (
        elim [ inl p ↦ inl p | inr m ↦ inr (ih.0 m) ],
        elim [ inl p ↦ inl p | inr m ↦ inr (ih.1 m) ],
      )
    ]

pub lt_of_In : (lo b : ℕ) (xs : List ℕ) → Ascending lo xs → In b xs → lo < b
lt_of_In lo b [] a m = absurd m
lt_of_In lo b (x ∷ xs) a (inl p) = omega (arith, a.0)
lt_of_In lo b (x ∷ xs) a (inr m) = omega (arith, a.0, lt_of_In x b xs a.1 m)

skip_zeros-positive : (lo : ℕ) (xs : List ℕ) → Ascending lo xs → skip_zeros xs ≡ xs
unfolding skip_zeros
skip_zeros-positive lo [] a = refl
skip_zeros-positive lo (x ∷ xs) a = ground (arith, a.0)

skip_zeros-cons :
    (x : ℕ) (xs : List ℕ) → Ascending x xs → skip_zeros (x ∷ xs) ≡ (if x == 0 then xs else x ∷ xs)
unfolding skip_zeros
skip_zeros-cons x xs a = rw (skip_zeros-positive x xs a)

skip_zeros-Ascending :
    (x : ℕ) (xs : List ℕ)
    → Ascending x xs
    → Ascending 0 (skip_zeros (x ∷ xs))
      × ((b : ℕ) → In b (skip_zeros (x ∷ xs)) ↔ (In b (x ∷ xs) × (0 < b)))
skip_zeros-Ascending x xs a = elim (Bool-cases (x == 0)) [
  | inl e ↦
      let z : x ≡ 0 = ground arith in
      rw (skip_zeros-cons x xs a, e)
        (
          subst (λ k. Ascending k xs) z a,
          λ b. (
            λ m. (inr m, omega (arith, lt_of_In x b xs a m)),
            λ h. elim h.0 [ inl p ↦ absurd (omega (arith, h.1)) | inr m ↦ m ],
          ),
        )
  | inr e ↦
      let pos : 0 < x = ground arith in
      rw (skip_zeros-cons x xs a, e)
        (
          (pos, a),
          λ b. (
            λ m. (m, elim m [ inl p ↦ omega arith | inr k ↦ omega (arith, lt_of_In x b xs a k) ]),
            λ h. h.0,
          ),
        )
]

insert-cons : (a : ℕ) (xs : List ℕ) → (y : ℕ) × (ys : List ℕ) × (insert a xs ≡ y ∷ ys)
unfolding insert
insert-cons a [] = (a, [], refl)
insert-cons a (x ∷ xs) = elim (Bool-cases (leb a x)) [
  | inl e ↦ (a, x ∷ xs, rw e)
  | inr e ↦ (x, insert a xs, rw e)
]

clean_sorted :
    (y : ℕ) (ys forks : List ℕ)
    → sort forks ≡ y ∷ ys
    → clean_forks forks ≡ some (skip_zeros (y ∷ dedup y ys))
unfolding clean_forks
clean_sorted y ys forks e =
    let r = dedup_loop (length ys) 1 1 (y ∷ ys) in
    let (t, l, m) = dedup_loop-dedup ys 0 1 y (y ∷ ys) refl refl (omega arith) (omega arith) in
    let k : length (y ∷ ys) - 1 ≡ length ys = omega arith in
    let fits : ltb (length r.0) r.1 ≡ false = ground (arith, l, m) in rw (e, k, fits, t)

-- For a non-empty list of forks cleanForks gives, in ascending order and each once, the forks that
-- are not 0.
pub clean_forks-Ascending :
    (fork : ℕ) (forks : List ℕ)
    → (clean : List ℕ) × (clean_forks (fork ∷ forks) ≡ some clean)
      × Ascending 0 clean
      × ((b : ℕ) → In b clean ↔ (In b (fork ∷ forks) × (0 < b)))
clean_forks-Ascending fork forks =
    let (y, ys, e) = insert-cons fork (sort forks) in
    let se : sort (fork ∷ forks) ≡ y ∷ ys = unfold sort in e in
    let srt : Sorted 0 (y ∷ ys) = subst (λ l. Sorted 0 l) se (sort-Sorted (fork ∷ forks)) in
    let (asc, mem) = skip_zeros-Ascending y (dedup y ys) (dedup-Ascending y ys srt.1) in
    let same = λ (b : ℕ). In-sort b (fork ∷ forks) in
    (
      skip_zeros (y ∷ dedup y ys),
      clean_sorted y ys (fork ∷ forks) se,
      asc,
      λ b. (
        λ m.
            let h = (mem b).0 m in
            ((same b).0 (subst (λ l. In b l) (sym se) ((In-dedup b y ys).0 h.0)), h.1),
        λ h. (mem b).1 ((In-dedup b y ys).1 (subst (λ l. In b l) se ((same b).1 h.0)), h.1),
      ),
    )

-- With no forks at all cleanForks slices past the end of its argument.
pub clean_forks-nil : clean_forks [] ≡ none
unfolding clean_forks
clean_forks-nil = refl
