-- ===== src/Kademlia/Table/Nearest.antt =====
-- What NearestPeers of discovery/kademlia/kademlia.go returns.
use mathlib.Core.Path.{subst}
use go_devp2p.Prelude.{
  ℕ, suc, ◌+◌, ◌-◌, ◌<◌, ◌≤◌, ◌≡◌, ◌⊎◌, refl, ap, sym, ◌∙◌, some_inj, length-append, In-append_left,
  In-append_right, lt→ltb, get_elem?-lt, inl, inr, Bool, true, false, some, List, [], ◌∷◌, ◌++◌,
  map, Bytes, length, length-take, take, get_elem?, get_elem?-some, ltb, ltb→lt, if◌then◌else◌,
  Result, ok, ◌>>=◌, All, All-append, All-In, In, Bool-cases, arith,
}
use go_devp2p.Kademlia.Key.{xor, common_prefix_len}
use go_devp2p.Kademlia.Key.Bounds.{xor_total, common_prefix_len_total}
use go_devp2p.Kademlia.Bucket.{Fault, Entry, Bucket}
use go_devp2p.Kademlia.Sorting.{PeerDistance, append_peers_from_list, closer, sort}
use go_devp2p.Kademlia.Sorting.Order.{
  Ordered, sort-Ordered, take-Ordered, sort-All, take-All, sort-In, take-In,
}
use go_devp2p.Kademlia.Table.{Table, bucket_index, bucket_at, nearest_peers}
use go_devp2p.Kademlia.Table.Wf.{Digest, IsWf, IsPlaced, Holds}
use go_devp2p.Kademlia.Table.Members.{index-lt}

-- The peer of an entry of the table, with its distance from the target.
pub record IsFrom (target : Bytes) (t : Table) (d : PeerDistance) : Type 0 where
  pub entry : Entry
  pub held : Holds t entry
  pub name : d.p ≡ entry.id
  pub far : xor target entry.hash ≡ some d.distance

-- The distance of an entry from the target is in the list.
pub record Covered (target : Bytes) (ds : List PeerDistance) (e : Entry) : Type 0 where
  pub distance : Bytes
  pub far : xor target e.hash ≡ some distance
  pub inside : In (record { p = e.id; distance = distance }) ds

-- An entry is returned, or `count` peers are that are no farther from the target.
pub record Closest (target : Bytes) (count : ℕ) (ds : List PeerDistance) (e : Entry) : Type 0 where
  pub distance : Bytes
  pub far : xor target e.hash ≡ some distance
  pub outcome :
      In (record { p = e.id; distance = distance }) ds
      ⊎ ((length ds ≡ count)
          × All (λ d. closer (record { p = e.id; distance = distance }) d ≡ false) ds)

-- What is returned: at most `count` peers of the table, in the order of their distances, which are
-- the closest of the target's bucket and, if that has fewer than `count`, of the buckets beside it.
pub record Nearest (target : Bytes) (count : ℕ) (t : Table) (ps : List Bytes) : Type 0 where
  pub distances : List PeerDistance
  pub names : ps ≡ map (λ (d : PeerDistance). d.p) distances
  pub bounded : length ps ≤ count
  pub ordered : Ordered distances
  pub sound : All (IsFrom target t) distances
  pub depth : ℕ
  pub deep : common_prefix_len target t.local ≡ some depth
  pub bucket : Bucket
  pub own : get_elem? t.buckets (bucket_index depth (length t.buckets)) ≡ some bucket
  pub closest : (e : Entry) → In e bucket → Closest target count distances e
  pub beside :
      (i : ℕ) (b : Bucket) (e : Entry)
      → length bucket < count
      → (suc i ≡ bucket_index depth (length t.buckets))
        ⊎ (i ≡ suc (bucket_index depth (length t.buckets)))
      → get_elem? t.buckets i ≡ some b
      → In e b
      → Closest target count distances e

pub length-map : {A B : Type 0} (f : A → B) (xs : List A) → length (map f xs) ≡ length xs
length-map f [] = refl
length-map f (x ∷ xs) = ap suc (length-map f xs)

module _ (sum : Bytes → Bytes) (width : ℕ) (d : Digest sum width) (peer : Bytes) (t : Table)
    (w : IsWf sum width t) where
  -- What is gathered from a bucket: those before, which are of the table, and all its entries.
  record Gathers (pds : List PeerDistance) (b : Bucket) (m : Result Fault (List PeerDistance))
      : Type 0 where
    after : List PeerDistance
    result : m ≡ ok after
    sound : All (IsFrom (sum peer) t) after
    kept : (x : PeerDistance) → In x pds → In x after
    covered : (e : Entry) → In e b → Covered (sum peer) after e
    size : length after ≡ length pds + length b

  append-Gathers :
      (pds : List PeerDistance) (b : Bucket)
      → All (IsFrom (sum peer) t) pds
      → ((e : Entry) → In e b → Holds t e × (length (sum peer) ≤ length e.hash))
      → Gathers pds b (append_peers_from_list (sum peer) pds b)
  unfolding append_peers_from_list
  append-Gathers pds [] h f = record {
    after = pds;
    result = refl;
    sound = h;
    kept = λ x m. m;
    covered = λ e m. absurd m;
    size = omega arith;
  }
  append-Gathers pds (e ∷ es) h f =
      let (held, le) = f e (inl refl) in
      let (dist, x, l) = xor_total (sum peer) e.hash le in
      let pd : PeerDistance = record { p = e.id; distance = dist } in
      let from : IsFrom (sum peer) t pd = record { entry = e; held = held; name = refl; far = x } in
      let g =
        append-Gathers (pds ++ pd ∷ []) es
          (All-append (IsFrom (sum peer) t) pds (pd ∷ []) h (from, tt)) (λ a m. f a (inr m)) in
      record {
        after = g.after;
        result = rw x g.result;
        sound = g.sound;
        kept = λ y m. g.kept y (In-append_left y pds (pd ∷ []) m);
        covered = λ a m. elim m [
          | inr q ↦ g.covered a q
          | inl q ↦ record {
            distance = dist;
            far = ap (λ (k : Entry). xor (sum peer) k.hash) q ∙ x;
            inside =
                subst (λ (k : Entry). In (record { p = k.id; distance = dist }) g.after) (sym q)
                  (g.kept pd (In-append_right pd pds (pd ∷ []) (inl refl)));
          }
        ];
        size = omega (arith, g.size, length-append pds (pd ∷ []));
      }

  bucket-Gathers :
      (pds : List PeerDistance) (i : ℕ) (b : Bucket)
      → get_elem? t.buckets i ≡ some b
      → All (IsFrom (sum peer) t) pds
      → Gathers pds b (append_peers_from_list (sum peer) pds b)
  bucket-Gathers pds i b at h = append-Gathers pds b h (λ e m.
      let pl = All-In (IsPlaced sum t.local (length t.buckets) i) b (w.bucket i b at).placed e m in
      (
        record { index = i; bucket = b; found = at; inside = m },
        omega (arith, d.sized peer, d.sized e.id, ap length pl.digest),
      ))

  -- a neighbouring bucket, if the test says that there is one
  more : Bool → ℕ → List PeerDistance → Result Fault (List PeerDistance)
  more test i pds =
      if test then (bucket_at t i >>= λ b. append_peers_from_list (sum peer) pds b) else ok pds

  -- What is gathered from it, and nothing where the test says that there is none.
  record Extends (test : Bool) (i : ℕ) (pds : List PeerDistance)
      (m : Result Fault (List PeerDistance)) : Type 0 where
    after : List PeerDistance
    result : m ≡ ok after
    sound : All (IsFrom (sum peer) t) after
    kept : (x : PeerDistance) → In x pds → In x after
    covered :
        (b : Bucket) (e : Entry)
        → test ≡ true
        → get_elem? t.buckets i ≡ some b
        → In e b
        → Covered (sum peer) after e

  more-Extends :
      (test : Bool) (i : ℕ) (pds : List PeerDistance)
      → (test ≡ true → i < length t.buckets)
      → All (IsFrom (sum peer) t) pds
      → Extends test i pds (more test i pds)
  unfolding more
  more-Extends false i pds lt h = record {
    after = pds;
    result = refl;
    sound = h;
    kept = λ x m. m;
    covered = λ b e q. absurd (cc q);
  }
  more-Extends true i pds lt h =
      let (b, at) = get_elem?-some t.buckets i (lt refl) in
      let g = bucket-Gathers pds i b at h in
      record {
        after = g.after;
        result = rw at g.result;
        sound = g.sound;
        kept = g.kept;
        covered = λ a e q at' m. g.covered e (subst (λ k. In e k) (some_inj (sym at' ∙ at)) m);
      }

  neighbours : ℕ → ℕ → List PeerDistance → Result Fault (List PeerDistance)
  neighbours count cpl pds =
      if ltb (length pds) count
      then (more (ltb 0 cpl) (cpl - 1) pds >>= λ below.
          more (ltb cpl (length t.buckets - 1)) (cpl + 1) below)
      else ok pds

  -- What is gathered from the buckets beside the one at `cpl`, if there are fewer than `count`.
  record Surrounds (count cpl : ℕ) (pds : List PeerDistance) (m : Result Fault (List PeerDistance))
      : Type 0 where
    after : List PeerDistance
    result : m ≡ ok after
    sound : All (IsFrom (sum peer) t) after
    kept : (x : PeerDistance) → In x pds → In x after
    covered :
        (i : ℕ) (b : Bucket) (e : Entry)
        → length pds < count
        → (suc i ≡ cpl) ⊎ (i ≡ suc cpl)
        → get_elem? t.buckets i ≡ some b
        → In e b
        → Covered (sum peer) after e

  still :
      {pds all : List PeerDistance} {e : Entry}
      → ((x : PeerDistance) → In x pds → In x all)
      → Covered (sum peer) pds e
      → Covered (sum peer) all e
  still f c = record { distance = c.distance; far = c.far; inside = f _ c.inside }

  neighbours-Surrounds :
      (count cpl : ℕ) (pds : List PeerDistance)
      → cpl < length t.buckets
      → All (IsFrom (sum peer) t) pds
      → Surrounds count cpl pds (neighbours count cpl pds)
  unfolding neighbours
  neighbours-Surrounds count cpl pds lt h = elim (Bool-cases (ltb (length pds) count)) [
    | inr e ↦ record {
      after = pds;
      result = rw e refl;
      sound = h;
      kept = λ x m. m;
      covered = λ i b a few. absurd (ground (arith, e, few));
    }
    | inl e ↦
        let g = more-Extends (ltb 0 cpl) (cpl - 1) pds (λ q. omega arith) h in
        let k =
          more-Extends (ltb cpl (length t.buckets - 1)) (cpl + 1) g.after
            (λ q. omega (arith, ltb→lt cpl (length t.buckets - 1) q)) g.sound in
        record {
          after = k.after;
          result = rw (e, g.result, k.result) refl;
          sound = k.sound;
          kept = λ x m. k.kept x (g.kept x m);
          covered = λ i b a few at found m. elim at [
            | inl q ↦
                let here : cpl - 1 ≡ i = omega (arith, q) in
                still k.kept (
                  g.covered b a (lt→ltb 0 cpl (omega (arith, q)))
                    (ap (get_elem? t.buckets) here ∙ found) m)
            | inr q ↦
                let here : cpl + 1 ≡ i = omega (arith, q) in
                let there = get_elem?-lt t.buckets i found in
                k.covered b a (lt→ltb cpl (length t.buckets - 1) (omega (arith, q, there)))
                  (ap (get_elem? t.buckets) here ∙ found) m
          ];
        }
  ]

  nearest_peers_lem :
      (count cpl : ℕ) (b : Bucket) (pds all : List PeerDistance)
      → common_prefix_len (sum peer) t.local ≡ some cpl
      → get_elem? t.buckets (bucket_index cpl (length t.buckets)) ≡ some b
      → append_peers_from_list (sum peer) [] b ≡ ok pds
      → neighbours count (bucket_index cpl (length t.buckets)) pds ≡ ok all
      → nearest_peers sum peer count t
        ≡ ok (map (λ (d : PeerDistance). d.p) (take count (sort all)))
  unfolding nearest_peers neighbours more
  nearest_peers_lem count cpl b pds all deep at e0 e1 = rw (deep, at, e0, e1)

  -- the first `count` of the sorted peers are the closest
  Covered-Closest :
      (count : ℕ) (all : List PeerDistance) (e : Entry)
      → Covered (sum peer) all e
      → Closest (sum peer) count (take count (sort all)) e
  Covered-Closest count all e c =
      let x : PeerDistance = record { p = e.id; distance = c.distance } in
      record {
        distance = c.distance;
        far = c.far;
        outcome = take-In count x (sort all) (sort-Ordered all) (sort-In x all c.inside);
      }

  -- Where digests have one size, NearestPeers on a well-formed table ends without a panic and
  -- returns at most the number asked for, peers of the table, in the order of their distances from
  -- the target. Every entry of the bucket of the target and, if that bucket has fewer entries than
  -- are asked for, of the buckets beside it, is returned, or as many peers as are asked for are
  -- returned and the entry is closer than none of them.
  pub nearest_peers-Nearest :
      (count : ℕ)
      → (ps : List Bytes) × (nearest_peers sum peer count t ≡ ok ps) × Nearest (sum peer) count t ps
  nearest_peers-Nearest count =
      let (cpl, deep, l) =
        common_prefix_len_total (sum peer) t.local (omega (arith, d.sized peer, w.local_width)) in
      let i = bucket_index cpl (length t.buckets) in
      let lt = index-lt cpl (length t.buckets) w.nonempty in
      let (b, at) = get_elem?-some t.buckets i lt in
      let g = bucket-Gathers [] i b at tt in
      let n = neighbours-Surrounds count i g.after lt g.sound in
      let ds = take count (sort n.after) in
      (
        map (λ (x : PeerDistance). x.p) ds,
        nearest_peers_lem count cpl b g.after n.after deep at g.result n.result,
        record {
          distances = ds;
          names = refl;
          bounded =
              omega (
                arith,
                length-map (λ (x : PeerDistance). x.p) ds,
                length-take count (sort n.after),
              );
          ordered = take-Ordered count (sort n.after) (sort-Ordered n.after);
          sound =
              take-All (IsFrom (sum peer) t) count (sort n.after)
                (sort-All (IsFrom (sum peer) t) n.after n.sound);
          depth = cpl;
          deep = deep;
          bucket = b;
          own = at;
          closest = λ e m. Covered-Closest count n.after e (still n.kept (g.covered e m));
          beside = λ j c e few place found m.
              Covered-Closest count n.after e
                (n.covered j c e (omega (arith, few, g.size)) place found m);
        },
      )
