-- ===== src/Kademlia/Table/Update.antt =====
-- Update and Remove on a well-formed table.
use mathlib.Core.Path.{subst}
use go_devp2p.Prelude.{
  ℕ, ◌+◌, ◌-◌, ◌*◌, ◌<◌, ◌≤◌, ◌≡◌, refl, ap, sym, ◌∙◌, ◌⊎◌, inl, inr, true, false, Option, none,
  some, List, [], ◌∷◌, Bytes, length, get_elem?, set, some_inj, ok, All, In, All-In, All-of_In,
  arith,
}
use go_devp2p.Kademlia.Key.{common_prefix_len}
use go_devp2p.Kademlia.Bucket.{Entry, Bucket, has, move_to_front}
use go_devp2p.Kademlia.Bucket.Move.{move_to_front-Distinct}
use go_devp2p.Kademlia.Bucket.Taken.{
  Taken-In, In-Taken, length-Taken, Distinct-Taken, to_front-Taken, In-has,
}
use go_devp2p.Kademlia.Table.{Table, Rejection, Notice, bucket_index}
use go_devp2p.Kademlia.Table.Wf.{Digest, IsPlaced, IsBucket, IsWf, Holds}
use go_devp2p.Kademlia.Table.Replace.{
  replaced-IsWf, Holds-replaced, replaced_at, replaced_new, replaced_old,
}
use go_devp2p.Kademlia.Table.Step.{depth-le}

abbrev pub new_entry : (Bytes → Bytes) → Bytes → Entry
new_entry sum p = record { id = p; hash = sum p }

-- What Update does with a peer: `r` is the error that it returns.
pub record Updates (sum : Bytes → Bytes) (width : ℕ) (p : Bytes) (t u : Table)
    (r : Option Rejection) : Type 0 where
  pub wf : IsWf sum width u
  pub same_bucketsize : u.bucketsize ≡ t.bucketsize
  pub keeps : (e : Entry) → Holds t e → Holds u e
  pub sound : (e : Entry) → Holds u e → Holds t e ⊎ ((e ≡ new_entry sum p) × (r ≡ none))
  pub front :
      r ≡ none → (i : ℕ) × (rest : Bucket) × (get_elem? u.buckets i ≡ some (new_entry sum p ∷ rest))

module _ (sum : Bytes → Bytes) (width : ℕ) (d : Digest sum width) (p : Bytes) where
  module _ (t : Table) (w : IsWf sum width t) (cpl : ℕ)
      (deep : common_prefix_len (sum p) t.local ≡ some cpl) where
    abbrev index : ℕ
    index = bucket_index cpl (length t.buckets)

    -- An entry with the peer's identifier stands in the bucket that Update and Remove look at.
    pub entry-index : (e : Entry) (h : Holds t e) → e.id ≡ p → h.index ≡ index
    entry-index e h q =
        let pl =
          All-In (IsPlaced sum t.local (length t.buckets) h.index) h.bucket
            (w.bucket h.index h.bucket h.found).placed e h.inside in
        let hash : e.hash ≡ sum p = pl.digest ∙ ap sum q in
        let same : pl.depth ≡ cpl =
          some_inj (sym pl.at ∙ ap (λ x. common_prefix_len x t.local) hash ∙ deep) in
        sym pl.place ∙ ap (λ x. bucket_index x (length t.buckets)) same

    pub entry-place :
        (b : Bucket) (e : Entry)
        → get_elem? t.buckets index ≡ some b
        → Holds t e
        → e.id ≡ p
        → In e b
    entry-place b e at h q =
        let here = ap (λ j. get_elem? t.buckets j) (entry-index e h q) in
        subst (λ x. In e x) (some_inj (sym h.found ∙ here ∙ at)) h.inside

    pub pushed-IsBucket :
        (b : Bucket)
        → get_elem? t.buckets index ≡ some b
        → has p b ≡ false
        → length b < t.bucketsize
        → IsBucket sum t.local (length t.buckets) t.bucketsize index (new_entry sum p ∷ b)
    pushed-IsBucket b at absent room = record {
      placed = (
        record { digest = refl; depth = cpl; at = deep; place = refl },
        (w.bucket index b at).placed,
      );
      bounded = room;
      distinct = (In-has p b absent, (w.bucket index b at).distinct);
    }

    -- A peer that is not in the table is put in front of a bucket with room.
    pub push-Updates :
        (b : Bucket)
        → get_elem? t.buckets index ≡ some b
        → has p b ≡ false
        → length b < t.bucketsize
        → (ns : List Notice)
        → Updates sum width p t
            (record t { buckets = set t.buckets index (new_entry sum p ∷ b); notices = ns })
            none
    push-Updates b at absent room ns = record {
      wf =
          replaced-IsWf sum width t w index b (new_entry sum p ∷ b) at ns
            (pushed-IsBucket b at absent room);
      keeps = λ e h. elim (replaced_old sum width t w index b (new_entry sum p ∷ b) at ns e h) [
        | inl m ↦ replaced_new sum width t w index b (new_entry sum p ∷ b) at ns e (inr m)
        | inr k ↦ k
      ];
      sound = λ e h. elim (Holds-replaced sum width t w index b (new_entry sum p ∷ b) at ns e h) [
        | inl (inl q) ↦ inr (q, refl)
        | inl (inr m) ↦ inl (record { index = index; bucket = b; found = at; inside = m })
        | inr k ↦ inl k.0
      ];
      same_bucketsize = refl;
      front = λ _. (index, b, replaced_at sum width t w index b (new_entry sum p ∷ b) at ns);
    }

    -- A peer that is in the table is moved to the front of its bucket.
    pub move-Updates :
        (b : Bucket)
        → get_elem? t.buckets index ≡ some b
        → has p b ≡ true
        → (c : Bucket) × (move_to_front (length b + length b) p b ≡ ok c)
          × Updates sum width p t (record t { buckets = set t.buckets index c }) none
    move-Updates b at present =
        let (e, rest, q, i, tk) = to_front-Taken p [] b present in
        let bk = w.bucket index b at in
        let pl : All (IsPlaced sum t.local (length t.buckets) index) (e ∷ rest) =
          All-of_In (IsPlaced sum t.local (length t.buckets) index) (e ∷ rest) (λ x m.
            All-In (IsPlaced sum t.local (length t.buckets) index) b bk.placed x
              (In-Taken x tk m)) in
        let same : e ≡ new_entry sum p =
          λ j. record { id = i j; hash = (pl.0.digest ∙ ap sum i) j } in
        let c = e ∷ rest in
        let bc : IsBucket sum t.local (length t.buckets) t.bucketsize index c = record {
          placed = pl;
          bounded = omega (arith, length-Taken tk, bk.bounded);
          distinct = Distinct-Taken tk bk.distinct;
        } in
        let rp = t.notices in
        (
          c,
          move_to_front-Distinct (length b + length b) p b (omega arith) bk.distinct ∙ ap ok q,
          record {
            wf = replaced-IsWf sum width t w index b c at rp bc;
            keeps = λ x h. elim (replaced_old sum width t w index b c at rp x h) [
              | inl m ↦ replaced_new sum width t w index b c at rp x (Taken-In x tk m)
              | inr k ↦ k
            ];
            sound = λ x h. elim (Holds-replaced sum width t w index b c at rp x h) [
              | inl m ↦
                  inl (record { index = index; bucket = b; found = at; inside = In-Taken x tk m })
              | inr k ↦ inl k.0
            ];
            same_bucketsize = refl;
            front = λ _. (
              index,
              rest,
              replaced_at sum width t w index b c at rp ∙ ap (λ x. some (x ∷ rest)) same,
            );
          },
        )

    -- Where the last bucket is full, the table is not deeper than the digests.
    pub full_last-le :
        (b : Bucket)
        → get_elem? t.buckets index ≡ some b
        → 0 < length b
        → index ≡ length t.buckets - 1
        → length t.buckets ≤ width * 8 + 1
    full_last-le [] at pos l = absurd (omega arith)
    full_last-le (e ∷ es) at pos l =
        let q = (w.bucket index (e ∷ es) at).placed.0 in
        ground (arith, depth-le sum width d w.local_width q, q.place)
