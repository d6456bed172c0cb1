-- ===== src/ForkId/Chain.antt =====
-- The checksums of a chain in forkid/forkid.go, and the lookup of a block among them.
use go_devp2p.Prelude.{
  ℕ, zero, suc, ◌-◌, ◌≤◌, ◌<◌, ◌≡◌, refl, sym, ap, ◌∙◌, inl, inr, true, some, List, [], ◌∷◌, Bytes,
  length, get_elem?, get_elem?-some, max_uint64, ltb, ltb→lt, ltb→le, be32, All, All-In, All-of_In,
  Bool-cases, arith,
}
use go_devp2p.ForkId.{Checksum, add_fork, fork_sums, new_fork_id, above, find_after}
use go_devp2p.ForkId.Crc32.{checksum_ieee}
use go_devp2p.ForkId.Search.{IsSplit, search-IsSplit}
use go_devp2p.ForkId.Clean.{Ascending, clean_forks-Ascending}

-- The block numbers ascend from above `lo` to the one at infinity.
abbrev pub Climbs : ℕ → List Checksum → Type 0
Climbs lo [] = lo ≡ max_uint64
Climbs lo (c ∷ cs) = (lo < c.number) × Climbs c.number cs

-- The checksums of a chain: the genesis block, the forks in order, and infinity.
abbrev pub IsChain : List Checksum → Type 0
IsChain [] = ⊥
IsChain (c ∷ cs) = (c.number ≡ 0) × Climbs c.number cs

fork_sums-Climbs :
    (hash lo : ℕ) (forks : List ℕ)
    → lo < max_uint64
    → Ascending lo forks
    → All (λ f. f < max_uint64) forks
    → Climbs lo (fork_sums hash forks)
unfolding fork_sums
fork_sums-Climbs hash lo [] h a b = (h, refl)
fork_sums-Climbs hash lo (f ∷ fs) h a b = (a.0, fork_sums-Climbs (add_fork hash f) f fs b.0 a.1 b.1)

number_mono :
    (lo : ℕ) (cs : List Checksum) (i j : ℕ) (a b : Checksum)
    → Climbs lo cs
    → get_elem? cs i ≡ some a
    → get_elem? cs j ≡ some b
    → i ≤ j
    → (lo < a.number) × (a.number ≤ b.number)
number_mono lo [] i j a b c p q h = cc
number_mono lo (x ∷ cs) zero zero a b c p q h = ground arith
number_mono lo (x ∷ cs) zero (suc j) a b c p q h =
    let r = number_mono x.number cs j j b b c.1 q q (omega arith) in ground arith
number_mono lo (x ∷ cs) (suc i) zero a b c p q h = absurd (omega arith)
number_mono lo (x ∷ cs) (suc i) (suc j) a b c p q h =
    let r = number_mono x.number cs i j a b c.1 p q (omega arith) in (omega (arith, r.0, c.0), r.1)

last_number :
    (lo : ℕ) (cs : List Checksum) (k : ℕ)
    → Climbs lo cs
    → suc k ≡ length cs
    → (c : Checksum) × (get_elem? cs k ≡ some c) × (c.number ≡ max_uint64)
last_number lo [] k c h = absurd (omega arith)
last_number lo (x ∷ []) zero c h = (x, refl, c.1)
last_number lo (x ∷ y ∷ cs) zero c h = absurd (omega arith)
last_number lo (x ∷ []) (suc k) c h = absurd (omega arith)
last_number lo (x ∷ y ∷ cs) (suc k) c h = last_number x.number (y ∷ cs) k c.1 (omega arith)

above-at :
    (cs : List Checksum) (block i : ℕ) (c : Checksum)
    → get_elem? cs i ≡ some c
    → above cs block i ≡ ltb block c.number
above-at cs block i c e = rw (e, above)

-- The fork that is active at a block, and the next one.
pub record Found (cs : List Checksum) (block k : ℕ) : Type 0 where
  pub found : find_after cs block ≡ some (suc k)
  pub here : Checksum
  pub next : Checksum
  pub at_here : get_elem? cs k ≡ some here
  pub at_next : get_elem? cs (suc k) ≡ some next
  pub started : here.number ≤ block
  pub not_yet : block < next.number

module _ (c : Checksum) (cs : List Checksum) (chain : IsChain (c ∷ cs)) (block : ℕ)
    (low : block < max_uint64) where
  all_sums : List Checksum
  all_sums = c ∷ cs

  above-ascending :
      (x y : ℕ)
      → x ≤ y
      → y < length (c ∷ cs)
      → above (c ∷ cs) block x ≡ true
      → above (c ∷ cs) block y ≡ true
  above-ascending x zero h l p =
      let q : x ≡ 0 = omega arith in ap (λ k. above (c ∷ cs) block k) (sym q) ∙ p
  above-ascending zero (suc y) h l p = absurd (ground (arith, chain.0))
  above-ascending (suc x) (suc y) h l p =
      let (b, e) = get_elem?-some cs y (omega arith) in
      let (a, f) = get_elem?-some cs x (omega arith) in
      let m = number_mono c.number cs x y a b chain.1 f e (omega arith) in
      rw (e, above) (ground (arith, above-at cs block x a f))

  rest-pos : (ds : List Checksum) → Climbs c.number ds → 0 < length ds
  rest-pos [] h = absurd (omega (arith, chain.0))
  rest-pos (x ∷ ds) h = omega arith

  position :
      (s : ℕ)
      → find_after (c ∷ cs) block ≡ some s
      → IsSplit (above (c ∷ cs) block) 0 (length (c ∷ cs)) s
      → (k : ℕ) × Found (c ∷ cs) block k
  position zero e s = absurd (ground (arith, s.from 0 (omega arith) (omega arith), chain.0))
  position (suc k) e s =
      let pos = rest-pos cs chain.1 in
      let (l, el, nl) = last_number c.number cs (length cs - 1) chain.1 (omega arith) in
      let q : suc (length cs - 1) ≡ length cs = omega arith in
      let el' : get_elem? (c ∷ cs) (length cs) ≡ some l =
        ap (λ i. get_elem? (c ∷ cs) i) (sym q) ∙ el in
      let top : k < length cs = elim (Bool-cases (ltb k (length cs))) [
        | inl h ↦ ltb→lt k (length cs) h
        | inr h ↦ absurd (
            ground (
              arith,
              above-at (c ∷ cs) block (length cs) l el',
              s.below (length cs) (omega arith) (omega (arith, ltb→le k (length cs) h)),
            ))
      ] in
      let (a, ea) = get_elem?-some (c ∷ cs) k (omega arith) in
      let (b, eb) = get_elem?-some (c ∷ cs) (suc k) (omega arith) in
      (
        k,
        record {
          found = e;
          here = a;
          next = b;
          at_here = ea;
          at_next = eb;
          started =
              ground (arith, above-at (c ∷ cs) block k a ea, s.below k (omega arith) (omega arith));
          not_yet = ground (
            arith,
            above-at (c ∷ cs) block (suc k) b eb,
            s.from (suc k) (omega arith) (omega arith),
          );
        },
      )

-- In a chain of checksums the binary search finds, for a block below the one at infinity, the fork
-- that is active at the block and the next one.
pub find_after-Found :
    (cs : List Checksum) (block : ℕ) → IsChain cs → block < max_uint64 → (k : ℕ) × Found cs block k
find_after-Found [] block h low = absurd h
find_after-Found (c ∷ cs) block h low =
    let (s, e, sp) =
      search-IsSplit (above (c ∷ cs) block) (length (c ∷ cs)) (above-ascending c cs h block low) in
    position c cs h block low s (unfold find_after in e) sp

-- The checksums of a genesis block and its forks, of which there is at least one and which are
-- below the block at infinity, are a chain: they ascend from block 0 to the block at infinity.
pub new_fork_id-IsChain :
    (genesis : Bytes) (fork : ℕ) (forks : List ℕ)
    → All (λ f. f < max_uint64) (fork ∷ forks)
    → (cs : List Checksum) × (new_fork_id genesis (fork ∷ forks) ≡ some cs) × IsChain cs
unfolding new_fork_id
new_fork_id-IsChain genesis fork forks b =
    let (clean, e, asc, mem) = clean_forks-Ascending fork forks in
    let hash = checksum_ieee genesis in
    let small : All (λ f. f < max_uint64) clean =
      All-of_In (λ f. f < max_uint64) clean
        (λ x m. All-In (λ f. f < max_uint64) (fork ∷ forks) b x ((mem x).0 m).0) in
    (
      record { number = 0; checksum = be32 hash } ∷ fork_sums hash clean,
      rw (e, new_fork_id),
      (refl, fork_sums-Climbs hash 0 clean (omega arith) asc small),
    )
