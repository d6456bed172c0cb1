-- ===== src/Kademlia/Bucket/Split.antt =====
-- What Split, Remove and the membership tests of a bucket do.
use go_devp2p.Prelude.{
  ℕ, ◌+◌, ◌<◌, ◌≤◌, ◌≡◌, ◌≢◌, refl, ◌⊎◌, inl, inr, some, [], ◌∷◌, Bytes, length, ltb, ltb→lt,
  ltb→le, ok, All, In, All-In, All-of_In, Bool-cases, arith,
}
use go_devp2p.Kademlia.Key.{common_prefix_len}
use go_devp2p.Kademlia.Bucket.{Entry, Bucket, split}
use go_devp2p.Kademlia.Bucket.Move.{Distinct}

-- The common prefix of the entry's digest and the target is `n` bits long.
abbrev pub At : Bytes → Entry → ℕ → Type 0
At target e n = common_prefix_len e.hash target ≡ some n

-- What Split does when no comparison panics: every entry goes to one side, in order.
pub record IsSplit (cpl : ℕ) (target : Bytes) (b kept out : Bucket) : Type 0 where
  pub lengths : length kept + length out ≡ length b
  pub near : All (λ e. (n : ℕ) × At target e n × (cpl < n)) out
  pub far : All (λ e. (n : ℕ) × At target e n × (n ≤ cpl)) kept
  pub sound : (x : Entry) → In x kept ⊎ In x out → In x b
  pub complete : (x : Entry) → In x b → In x kept ⊎ In x out
  pub distinct : Distinct b → Distinct kept × Distinct out

Distinct-sub :
    (e : Entry) (es part : Bucket)
    → ((x : Entry) → In x part → In x es)
    → All (λ (f : Entry). f.id ≢ e.id) es
    → All (λ (f : Entry). f.id ≢ e.id) part
Distinct-sub e es part f h =
    All-of_In (λ x. x.id ≢ e.id) part (λ x m. All-In (λ y. y.id ≢ e.id) es h x (f x m))

IsSplit-far :
    {cpl n : ℕ} {target : Bytes} (e : Entry) {es kept out : Bucket}
    → At target e n
    → n ≤ cpl
    → IsSplit cpl target es kept out
    → IsSplit cpl target (e ∷ es) (e ∷ kept) out
IsSplit-far {n = n} e {es} {kept} {out} p h s = record {
  lengths = omega (arith, s.lengths);
  near = s.near;
  far = ((n, p, h), s.far);
  sound = λ x. elim [
    | inl (inl q) ↦ inl q
    | inl (inr m) ↦ inr (s.sound x (inl m))
    | inr m ↦ inr (s.sound x (inr m))
  ];
  complete = λ x. elim [
    | inl q ↦ inl (inl q)
    | inr m ↦ elim (s.complete x m) [ inl k ↦ inl (inr k) | inr o ↦ inr o ]
  ];
  distinct = λ d. (
    (Distinct-sub e es kept (λ x m. s.sound x (inl m)) d.0, (s.distinct d.1).0),
    (s.distinct d.1).1,
  );
}

IsSplit-near :
    {cpl n : ℕ} {target : Bytes} (e : Entry) {es kept out : Bucket}
    → At target e n
    → cpl < n
    → IsSplit cpl target es kept out
    → IsSplit cpl target (e ∷ es) kept (e ∷ out)
IsSplit-near {n = n} e {es} {kept} {out} p h s = record {
  lengths = omega (arith, s.lengths);
  near = ((n, p, h), s.near);
  far = s.far;
  sound = λ x. elim [
    | inr (inl q) ↦ inl q
    | inr (inr m) ↦ inr (s.sound x (inr m))
    | inl m ↦ inr (s.sound x (inl m))
  ];
  complete = λ x. elim [
    | inl q ↦ inr (inl q)
    | inr m ↦ elim (s.complete x m) [ inl k ↦ inl k | inr o ↦ inr (inr o) ]
  ];
  distinct = λ d. (
    (s.distinct d.1).0,
    (Distinct-sub e es out (λ x m. s.sound x (inr m)) d.0, (s.distinct d.1).1),
  );
}

-- Where every entry can be compared with the target, Split puts each entry on the side of its
-- common prefix, and keeps the entries and their being distinct.
pub split-IsSplit :
    (cpl : ℕ) (target : Bytes) (b : Bucket)
    → All (λ e. (n : ℕ) × At target e n) b
    → (kept : Bucket) × (out : Bucket) × (split cpl target b ≡ ok (kept, out))
      × IsSplit cpl target b kept out
unfolding split
split-IsSplit cpl target [] a = (
  [],
  [],
  refl,
  record {
    lengths = refl;
    near = tt;
    far = tt;
    sound = λ x. elim [ inl h ↦ h | inr h ↦ h ];
    complete = λ x h. inl h;
    distinct = λ d. (tt, tt);
  },
)
split-IsSplit cpl target (e ∷ es) ((n, p), a) =
    let (kept, out, q, s) = split-IsSplit cpl target es a in
    elim (Bool-cases (ltb cpl n)) [
      | inl h ↦ (kept, e ∷ out, rw (p, split, q, h), IsSplit-near e p (ltb→lt cpl n h) s)
      | inr h ↦ (e ∷ kept, out, rw (p, split, q, h), IsSplit-far e p (ltb→le cpl n h) s)
    ]
