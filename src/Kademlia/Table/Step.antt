-- ===== src/Kademlia/Table/Step.antt =====
-- One round of nextBucket: the last bucket is split in two.
use go_devp2p.Prelude.{
  ℕ, suc, ◌-◌, ◌*◌, ◌<◌, ◌≤◌, ◌≡◌, ◌≢◌, ap, sym, ◌∙◌, inl, inr, some, List, [], ◌∷◌, ◌++◌, Bytes,
  length, length-append, length-set, get_elem?, set, some_inj, get_elem?-set, get_elem?-append_one,
  get_elem?-lt, ◌==◌, if◌then◌else◌, All, In, All-In, All-of_In, arith,
}
use native.Mathlib.Decide.{ℕ_discrete}
use mathlib.Core.Path.{subst, subst₂}
use go_devp2p.Kademlia.Key.Bounds.{common_prefix_len-le}
use go_devp2p.Kademlia.Bucket.{Entry, Bucket}
use go_devp2p.Kademlia.Bucket.Split.{At, IsSplit}
use go_devp2p.Kademlia.Table.{Table}
use go_devp2p.Kademlia.Table.Wf.{Digest, IsPlaced, IsBucket, IsWf, Holds}

-- The buckets after the last one, at index `m`, is split into `kept` and `out`.
abbrev pub split_last : List Bucket → ℕ → Bucket → Bucket → List Bucket
split_last bs m kept out = set bs m kept ++ out ∷ []

get_elem?-split_last :
    (bs : List Bucket) (m j : ℕ) (kept out : Bucket)
    → suc m ≡ length bs
    → get_elem? (split_last bs m kept out) j
      ≡ (if j == suc m then some out else if j == m then some kept else get_elem? bs j)
get_elem?-split_last bs m j kept out h =
    get_elem?-append_one (set bs m kept) out j
    ∙ ground (arith, get_elem?-set bs m j kept, length-set bs m kept)

module _ (sum : Bytes → Bytes) (width : ℕ) (d : Digest sum width) where
  -- The depth of an entry is in range.
  pub depth-le :
      {local : Bytes} {n i : ℕ} {e : Entry}
      → length local ≡ width
      → (p : IsPlaced sum local n i e) → p.depth ≤ width * 8
  depth-le {local} {e = e} w p =
      let l : length e.hash ≡ width = ap length p.digest ∙ d.sized e.id in
      omega (arith, common_prefix_len-le e.hash local (omega arith) p.at)

  pub All-At :
      (local : Bytes) (n i : ℕ) (b : Bucket)
      → All (IsPlaced sum local n i) b
      → All (λ e. (k : ℕ) × At local e k) b
  All-At local n i [] h = tt
  All-At local n i (e ∷ es) h = ((h.0.depth, h.0.at), All-At local n i es h.1)

  module _ (local : Bytes) (m : ℕ) where
    -- An entry of a bucket before the last stays where it is when a bucket is added.
    IsPlaced-grow :
        (i : ℕ) (b : Bucket)
        → i < m
        → All (IsPlaced sum local (suc m) i) b
        → All (IsPlaced sum local (suc (suc m)) i) b
    IsPlaced-grow i [] h a = tt
    IsPlaced-grow i (e ∷ es) h a = (
      record {
        digest = a.0.digest;
        depth = a.0.depth;
        at = a.0.at;
        place = ground (arith, a.0.place);
      },
      IsPlaced-grow i es h a.1,
    )

    pub At-unique : (e : Entry) {k l : ℕ} → At local e k → At local e l → k ≡ l
    At-unique e p q = some_inj (sym p ∙ q)

    IsPlaced-kept :
        (e : Entry) (p : IsPlaced sum local (suc m) m e) (k : ℕ)
        → At local e k
        → k ≤ m
        → IsPlaced sum local (suc (suc m)) m e
    IsPlaced-kept e p k a h = record {
      digest = p.digest;
      depth = p.depth;
      at = p.at;
      place = ground (arith, p.place, At-unique e p.at a);
    }

    IsPlaced-out :
        (e : Entry) (p : IsPlaced sum local (suc m) m e) (k : ℕ)
        → At local e k
        → m < k
        → IsPlaced sum local (suc (suc m)) (suc m) e
    IsPlaced-out e p k a h = record {
      digest = p.digest;
      depth = p.depth;
      at = p.at;
      place = ground (arith, At-unique e p.at a);
    }

  abbrev pub Deep : Bytes → ℕ → Entry → Type 0
  Deep local m e = (k : ℕ) × At local e k × (m < k)

  module _ (t : Table) (w : IsWf sum width t) (m : ℕ) (last : suc m ≡ length t.buckets)
      (b kept out : Bucket) (at : get_elem? t.buckets m ≡ some b)
      (s : IsSplit m t.local b kept out) where
    abbrev pub unfolded : Table
    unfolded = record t { buckets = split_last t.buckets m kept out }

    pub length_unfolded : length unfolded.buckets ≡ suc (suc m)
    length_unfolded =
        length-append (set t.buckets m kept) (out ∷ []) ∙ omega (arith, length-set t.buckets m kept)

    last_IsBucket : IsBucket sum t.local (suc m) t.bucketsize m b
    last_IsBucket = rw last (w.bucket m b at)

    IsPlaced-sub :
        (part : Bucket)
        → ((x : Entry) → In x part → In x b)
        → All (IsPlaced sum t.local (suc m) m) part
    IsPlaced-sub part f =
        All-of_In (IsPlaced sum t.local (suc m) m) part
          (λ x h. All-In (IsPlaced sum t.local (suc m) m) b last_IsBucket.placed x (f x h))

    kept-IsPlaced :
        (part : Bucket)
        → All (IsPlaced sum t.local (suc m) m) part
        → All (λ e. (k : ℕ) × At t.local e k × (k ≤ m)) part
        → All (IsPlaced sum t.local (suc (suc m)) m) part
    kept-IsPlaced [] p f = tt
    kept-IsPlaced (e ∷ es) p f =
        (IsPlaced-kept t.local m e p.0 f.0.0 f.0.1 f.0.2, kept-IsPlaced es p.1 f.1)

    out-IsPlaced :
        (part : Bucket)
        → All (IsPlaced sum t.local (suc m) m) part
        → All (Deep t.local m) part
        → All (IsPlaced sum t.local (suc (suc m)) (suc m)) part
    out-IsPlaced [] p f = tt
    out-IsPlaced (e ∷ es) p f =
        (IsPlaced-out t.local m e p.0 f.0.0 f.0.1 f.0.2, out-IsPlaced es p.1 f.1)

    kept_IsBucket : IsBucket sum t.local (suc (suc m)) t.bucketsize m kept
    kept_IsBucket = record {
      placed = kept-IsPlaced kept (IsPlaced-sub kept (λ x h. s.sound x (inl h))) s.far;
      bounded = omega (arith, last_IsBucket.bounded, s.lengths);
      distinct = (s.distinct last_IsBucket.distinct).0;
    }

    out_IsBucket : IsBucket sum t.local (suc (suc m)) t.bucketsize (suc m) out
    out_IsBucket = record {
      placed = out-IsPlaced out (IsPlaced-sub out (λ x h. s.sound x (inr h))) s.near;
      bounded = omega (arith, last_IsBucket.bounded, s.lengths);
      distinct = (s.distinct last_IsBucket.distinct).1;
    }

    old_IsBucket :
        (i : ℕ) (c : Bucket)
        → i ≢ m
        → get_elem? t.buckets i ≡ some c
        → IsBucket sum t.local (suc (suc m)) t.bucketsize i c
    old_IsBucket i c ne h =
        let o : IsBucket sum t.local (suc m) t.bucketsize i c = rw last (w.bucket i c h) in
        record {
          placed = IsPlaced-grow t.local m i c (omega (arith, get_elem?-lt t.buckets i h)) o.placed;
          bounded = o.bounded;
          distinct = o.distinct;
        }

    at_out : get_elem? unfolded.buckets (suc m) ≡ some out
    at_out = get_elem?-split_last t.buckets m (suc m) kept out last ∙ ground arith

    at_kept : get_elem? unfolded.buckets m ≡ some kept
    at_kept = get_elem?-split_last t.buckets m m kept out last ∙ ground arith

    at_old : (i : ℕ) → i ≢ suc m → i ≢ m → get_elem? unfolded.buckets i ≡ get_elem? t.buckets i
    at_old i p q = get_elem?-split_last t.buckets m i kept out last ∙ ground arith

    at_last : get_elem? unfolded.buckets (length unfolded.buckets - 1) ≡ some out
    at_last =
        ap (λ i. get_elem? unfolded.buckets i)
          (let l : length unfolded.buckets - 1 ≡ suc m = omega (arith, length_unfolded) in l)
        ∙ at_out

    pub last_room :
        length out < t.bucketsize
        → (c : Bucket) → get_elem? unfolded.buckets (length unfolded.buckets - 1) ≡ some c
        → length c < t.bucketsize
    last_room h c q = subst (λ x. length x < t.bucketsize) (some_inj (sym at_last ∙ q)) h

    unfolded_bucket :
        (i : ℕ) (c : Bucket)
        → get_elem? unfolded.buckets i ≡ some c
        → IsBucket sum t.local (suc (suc m)) t.bucketsize i c
    unfolded_bucket i c h = elim (ℕ_discrete i (suc m)) [
      | yes p ↦
          subst₂ (λ j x. IsBucket sum t.local (suc (suc m)) t.bucketsize j x) (sym p)
            (some_inj (sym at_out ∙ (rw p at h))) out_IsBucket
      | no p ↦ elim (ℕ_discrete i m) [
        | yes q ↦
            subst₂ (λ j x. IsBucket sum t.local (suc (suc m)) t.bucketsize j x) (sym q)
              (some_inj (sym at_kept ∙ (rw q at h))) kept_IsBucket
        | no q ↦ old_IsBucket i c q (sym (at_old i p q) ∙ h)
      ]
    ]

    pub unfolded-IsWf : IsWf sum width unfolded
    unfolded-IsWf = record {
      nonempty = omega (arith, length_unfolded);
      local_width = w.local_width;
      bucket = rw length_unfolded unfolded_bucket;
    }

    pub Holds-unfolded : (e : Entry) → Holds t e → Holds unfolded e
    Holds-unfolded e h = elim (ℕ_discrete h.index m) [
      | yes q ↦
          let inb : In e b =
            subst (λ x. In e x) (some_inj (sym h.found ∙ (rw (← q) at at))) h.inside in
          elim (s.complete e inb) [
            | inl k ↦ record { index = m; bucket = kept; found = at_kept; inside = k }
            | inr o ↦ record { index = suc m; bucket = out; found = at_out; inside = o }
          ]
      | no q ↦ record {
        index = h.index;
        bucket = h.bucket;
        found =
            at_old h.index (λ p. absurd (omega (arith, get_elem?-lt t.buckets h.index h.found))) q
            ∙ h.found;
        inside = h.inside;
      }
    ]

    pub Holds-folded : (e : Entry) → Holds unfolded e → Holds t e
    Holds-folded e h = elim (ℕ_discrete h.index (suc m)) [
      | yes p ↦ record {
        index = m;
        bucket = b;
        found = at;
        inside =
            s.sound e (inr (subst (λ x. In e x) (some_inj (sym h.found ∙ (rw p at_out))) h.inside));
      }
      | no p ↦ elim (ℕ_discrete h.index m) [
        | yes q ↦ record {
          index = m;
          bucket = b;
          found = at;
          inside =
              s.sound e
                (inl (subst (λ x. In e x) (some_inj (sym h.found ∙ (rw q at_kept))) h.inside));
        }
        | no q ↦ record {
          index = h.index;
          bucket = h.bucket;
          found = sym (at_old h.index p q) ∙ h.found;
          inside = h.inside;
        }
      ]
    ]
