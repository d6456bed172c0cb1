-- ===== src/Kademlia/Table/Unfold.antt =====
-- nextBucket of discovery/kademlia/kademlia.go: the rounds it takes, and the entries of the table.
use go_devp2p.Prelude.{
  ℕ, zero, suc, ◌+◌, ◌-◌, ◌*◌, ◌<◌, ◌≤◌, ◌≡◌, refl, ◌∙◌, inl, inr, some, [], ◌∷◌, Bytes, length,
  get_elem?, get_elem?-some, leb, if◌then◌else◌, ok, All, In, All-In, Bool-cases, arith,
}
use go_devp2p.Kademlia.Bucket.{Entry, Bucket, split}
use go_devp2p.Kademlia.Bucket.Split.{split-IsSplit}
use go_devp2p.Kademlia.Table.{Table, next_bucket}
use go_devp2p.Kademlia.Table.Step.{
  split_last, Deep, All-At, depth-le, At-unique, unfolded, unfolded-IsWf, length_unfolded,
  Holds-unfolded, Holds-folded, last_room,
}
use go_devp2p.Kademlia.Table.Wf.{Digest, IsPlaced, IsWf, Holds}

-- What unfolding leaves as it is, and the room that it makes.
pub record Unfolds (sum : Bytes → Bytes) (width : ℕ) (t u : Table) : Type 0 where
  pub wf : IsWf sum width u
  pub same_local : u.local ≡ t.local
  pub same_bucketsize : u.bucketsize ≡ t.bucketsize
  pub same_notices : u.notices ≡ t.notices
  pub room :
      (b : Bucket) → get_elem? u.buckets (length u.buckets - 1) ≡ some b → length b < t.bucketsize
  pub keeps : (e : Entry) → Holds t e → Holds u e
  pub adds_none : (e : Entry) → Holds u e → Holds t e

module _ (sum : Bytes → Bytes) (width : ℕ) (d : Digest sum width) where
  Unfolds-trans :
      (t u v : Table)
      → u.bucketsize ≡ t.bucketsize
      → u.local ≡ t.local
      → u.notices ≡ t.notices
      → ((e : Entry) → Holds t e → Holds u e)
      → ((e : Entry) → Holds u e → Holds t e)
      → Unfolds sum width u v
      → Unfolds sum width t v
  Unfolds-trans t u v sb sl sn f g x = record {
    wf = x.wf;
    same_local = x.same_local ∙ sl;
    same_bucketsize = x.same_bucketsize ∙ sb;
    same_notices = x.same_notices ∙ sn;
    room = λ b h. omega (arith, x.room b h);
    keeps = λ e h. x.keeps e (f e h);
    adds_none = λ e h. g e (x.adds_none e h);
  }

  -- An entry below depth `m` shows that `m` is not as deep as the digests are wide.
  Deep-lt :
      (local : Bytes) (n i m : ℕ) (b out : Bucket)
      → length local ≡ width
      → All (IsPlaced sum local n i) b
      → ((x : Entry) → In x out → In x b)
      → 0 < length out
      → All (Deep sum width d local m) out
      → m < width * 8
  Deep-lt local n i m b [] w p sub h a = absurd (omega arith)
  Deep-lt local n i m b (e ∷ es) w p sub h a =
      let q = All-In (IsPlaced sum local n i) b p e (sub e (inl refl)) in
      omega (arith, depth-le sum width d w q, At-unique sum width d local m e q.at a.0.1)

  next_bucket_step :
      (fuel : ℕ) (t : Table) (b kept out : Bucket)
      → get_elem? t.buckets (length t.buckets - 1) ≡ some b
      → split (length t.buckets - 1) t.local b ≡ ok (kept, out)
      → next_bucket (suc fuel) t ≡ (
          let u = record t { buckets = split_last t.buckets (length t.buckets - 1) kept out } in
          if leb t.bucketsize (length out) then next_bucket fuel u else ok u)
  unfolding next_bucket
  next_bucket_step fuel t b kept out at e = rw (at, e)

  -- Unfolding ends, in a well-formed table of the same entries whose last bucket has room.
  pub next_bucket-Unfolds :
      (fuel : ℕ) (t : Table)
      → IsWf sum width t
      → 0 < t.bucketsize
      → length t.buckets ≤ width * 8 + 1
      → width * 8 + 2 ≤ fuel + length t.buckets
      → (u : Table) × (next_bucket fuel t ≡ ok u) × Unfolds sum width t u
  next_bucket-Unfolds zero t w pos l h = absurd (omega arith)
  next_bucket-Unfolds (suc fuel) t w pos l h =
      let m = length t.buckets - 1 in
      let last : suc m ≡ length t.buckets = omega (arith, w.nonempty) in
      let (b, at) = get_elem?-some t.buckets m (omega (arith, w.nonempty)) in
      let pl = (w.bucket m b at).placed in
      let (kept, out, e, s) =
        split-IsSplit m t.local b (All-At sum width d t.local (length t.buckets) m b pl) in
      let u = unfolded sum width d t w m last b kept out at s in
      let wu = unfolded-IsWf sum width d t w m last b kept out at s in
      let lu = length_unfolded sum width d t w m last b kept out at s in
      let step = next_bucket_step fuel t b kept out at e in
      let keeps = Holds-unfolded sum width d t w m last b kept out at s in
      let adds = Holds-folded sum width d t w m last b kept out at s in
      elim (Bool-cases (leb t.bucketsize (length out))) [
        | inl full ↦
            let deep : m < width * 8 =
              Deep-lt t.local (length t.buckets) m m b out w.local_width pl
                (λ x i. s.sound x (inr i)) (ground arith) s.near in
            let (v, p, x) = next_bucket-Unfolds fuel u wu pos (omega arith) (omega arith) in
            (v, step ∙ rw full p, Unfolds-trans t u v refl refl refl keeps adds x)
        | inr fits ↦ (
          u,
          step ∙ rw fits refl,
          record {
            wf = wu;
            same_local = refl;
            same_bucketsize = refl;
            same_notices = refl;
            room = last_room sum width d t w m last b kept out at s (ground arith);
            keeps = keeps;
            adds_none = adds;
          },
        )
      ]
