-- ===== src/ForkId/Search.antt =====
-- sort.Search, the binary search over an ascending predicate.
use go_devp2p.Prelude.{
  ℕ, zero, suc, ◌+◌, ◌/◌, ◌≤◌, ◌<◌, ◌≡◌, Bool, true, false, Option, none, some, ltb, if◌then◌else◌,
  inl, inr, Bool-cases, ltb→lt, ltb→le, arith,
}

-- `for i < j`; `none` means that the rounds did not suffice
unfoldable pub search_loop : ℕ → (ℕ → Bool) → ℕ → ℕ → Option ℕ
search_loop zero f i j = none
search_loop (suc rounds) f i j =
    let h = (i + j) / 2 in
    let above = search_loop rounds f (h + 1) j in
    let below = search_loop rounds f i h in
    if ltb i j then (if f h then below else above) else some i

unfoldable pub search : ℕ → (ℕ → Bool) → Option ℕ
unfolding search_loop
search n f = search_loop (n + 1) f 0 n

-- The position found splits the range into indices that fail and indices that pass.
pub record IsSplit (f : ℕ → Bool) (lo hi k : ℕ) : Type 0 where
  pub range : (lo ≤ k) × (k ≤ hi)
  pub below : (x : ℕ) → lo ≤ x → x < k → f x ≡ false
  pub from : (x : ℕ) → k ≤ x → x < hi → f x ≡ true

module _ (f : ℕ → Bool) (n : ℕ)
    (ascending : (x y : ℕ) → x ≤ y → y < n → f x ≡ true → f y ≡ true) where
  descending : (x y : ℕ) → x ≤ y → y < n → f y ≡ false → f x ≡ false
  descending x y h l p = elim (Bool-cases (f x)) [
    | inl q ↦ absurd (cc (ascending x y h l q, p))
    | inr q ↦ q
  ]

  search_loop-IsSplit :
      (rounds i j : ℕ)
      → i ≤ j
      → j ≤ n
      → j < rounds + i
      → (k : ℕ) × (search_loop rounds f i j ≡ some k) × IsSplit f i j k
  unfolding search_loop
  search_loop-IsSplit zero i j le top h = absurd (omega arith)
  search_loop-IsSplit (suc rounds) i j le top h = elim (Bool-cases (ltb i j)) [
    | inr e ↦ (
      i,
      rw e,
      record {
        range = (omega arith, omega arith);
        below = λ x a b. absurd (omega arith);
        from = λ x a b. absurd (omega (arith, ltb→le i j e));
      },
    )
    | inl e ↦
        let mid : ℕ = (i + j) / 2 in
        let lt : i < j = ltb→lt i j e in
        elim (Bool-cases (f mid)) [
          | inl p ↦
              let (k, q, s) =
                search_loop-IsSplit rounds i mid (omega arith) (omega arith) (omega arith) in
              (
                k,
                rw (e, p) q,
                record {
                  range = (s.range.0, omega (arith, s.range));
                  below = s.below;
                  from = λ x a b. elim (Bool-cases (ltb x mid)) [
                    | inl c ↦ s.from x a (ltb→lt x mid c)
                    | inr c ↦ ascending mid x (ltb→le x mid c) (omega arith) p
                  ];
                },
              )
          | inr p ↦
              let (k, q, s) =
                search_loop-IsSplit rounds (mid + 1) j (omega arith) top (omega arith) in
              (
                k,
                rw (e, p) q,
                record {
                  range = (omega (arith, s.range), s.range.1);
                  below = λ x a b. elim (Bool-cases (ltb mid x)) [
                    | inl c ↦ s.below x (omega (arith, ltb→lt mid x c)) b
                    | inr c ↦ descending x mid (ltb→le mid x c) (omega arith) p
                  ];
                  from = s.from;
                },
              )
        ]
  ]

  -- Over an ascending predicate the binary search ends at the least index that passes, or at the
  -- length.
  pub search-IsSplit : (k : ℕ) × (search n f ≡ some k) × IsSplit f 0 n k
  unfolding search
  search-IsSplit = search_loop-IsSplit (n + 1) 0 n (omega arith) (omega arith) (omega arith)
