-- ===== src/Kademlia/Table/Members.antt =====
-- Update of discovery/kademlia/kademlia.go as an operation on the set of peers.
use go_devp2p.Prelude.{
  ℕ, ◌+◌, ◌-◌, ◌*◌, ◌<◌, ◌≤◌, ◌≡◌, refl, ap, ◌∙◌, inl, inr, true, false, Option, none, some, [],
  ◌∷◌, ◌++◌, Bytes, length, get_elem?, set, get_elem?-some, ltb, ltb→lt, ltb→le, leb, ◌==◌, ==_iff,
  ok, Bool-cases, arith,
}
use go_devp2p.Kademlia.Key.{common_prefix_len}
use go_devp2p.Kademlia.Key.Bounds.{common_prefix_len_total}
use go_devp2p.Kademlia.Bucket.{Bucket, has, move_to_front}
use go_devp2p.Kademlia.Bucket.Taken.{In-Taken, remove-Taken, has-In}
use go_devp2p.Kademlia.Table.{
  Table, Rejection, no_capacity, peer_added, bucket_index, update, update_unfolded, next_bucket,
}
use go_devp2p.Kademlia.Table.Wf.{Digest, IsWf}
use go_devp2p.Kademlia.Table.Unfold.{Unfolds, next_bucket-Unfolds}
use go_devp2p.Kademlia.Table.Update.{
  Updates, new_entry, entry-place, push-Updates, move-Updates, full_last-le,
}

module _ (sum : Bytes → Bytes) (p : Bytes) (t : Table) (cpl : ℕ) (b : Bucket)
    (deep : common_prefix_len (sum p) t.local ≡ some cpl)
    (at : get_elem? t.buckets (bucket_index cpl (length t.buckets)) ≡ some b) where
  update_present :
      (c : Bucket)
      → has p b ≡ true
      → move_to_front (length b + length b) p b ≡ ok c
      → update sum p t
        ≡ ok (record t { buckets = set t.buckets (bucket_index cpl (length t.buckets)) c }, none)
  unfolding update
  update_present c h m = rw (deep, at, h, m)

  update_room :
      has p b ≡ false
      → ltb (length b) t.bucketsize ≡ true
      → update sum p t
        ≡ ok (
          record t {
            buckets = set t.buckets (bucket_index cpl (length t.buckets)) (new_entry sum p ∷ b);
            notices = t.notices ++ peer_added p ∷ [];
          },
          none,
        )
  unfolding update
  update_room h r = rw (deep, at, h, r)

  update_full :
      has p b ≡ false
      → ltb (length b) t.bucketsize ≡ false
      → (bucket_index cpl (length t.buckets) == length t.buckets - 1) ≡ false
      → update sum p t ≡ ok (t, some no_capacity)
  unfolding update
  update_full h r l = rw (deep, at, h, r, l)

  update_unfolds :
      (u : Table)
      → has p b ≡ false
      → ltb (length b) t.bucketsize ≡ false
      → (bucket_index cpl (length t.buckets) == length t.buckets - 1) ≡ true
      → next_bucket (length t.local * 8 + 2) t ≡ ok u
      → update sum p t ≡ update_unfolded sum p cpl u
  unfolding update
  update_unfolds u h r l n = rw (deep, at, h, r, l, n)

module _ (sum : Bytes → Bytes) (p : Bytes) (cpl : ℕ) (u : Table) (b : Bucket)
    (at : get_elem? u.buckets (bucket_index cpl (length u.buckets)) ≡ some b) where
  unfolded_full :
      leb u.bucketsize (length b) ≡ true → update_unfolded sum p cpl u ≡ ok (u, some no_capacity)
  unfolding update_unfolded
  unfolded_full f = rw (at, f)

  unfolded_room :
      leb u.bucketsize (length b) ≡ false
      → update_unfolded sum p cpl u
        ≡ ok (
          record u {
            buckets = set u.buckets (bucket_index cpl (length u.buckets)) (new_entry sum p ∷ b);
            notices = u.notices ++ peer_added p ∷ [];
          },
          none,
        )
  unfolding update_unfolded
  unfolded_room f = rw (at, f)

abbrev Outcome : (Bytes → Bytes) → ℕ → Bytes → Table → Type 0
Outcome sum width p t =
    (u : Table) × (r : Option Rejection) × (update sum p t ≡ ok (u, r)) × Updates sum width p t u r

pub index-lt : (cpl n : ℕ) → 0 < n → bucket_index cpl n < n
index-lt cpl n h = ground arith

module _ (sum : Bytes → Bytes) (width : ℕ) (d : Digest sum width) (p : Bytes) where
  Updates-rejected : (t : Table) → IsWf sum width t → Updates sum width p t t (some no_capacity)
  Updates-rejected t w = record {
    wf = w;
    keeps = λ e h. h;
    sound = λ e h. inl h;
    same_bucketsize = refl;
    front = λ h. cc;
  }

  Updates-after :
      (t u v : Table) (r : Option Rejection)
      → Unfolds sum width t u
      → Updates sum width p u v r
      → Updates sum width p t v r
  Updates-after t u v r x y = record {
    wf = y.wf;
    keeps = λ e h. y.keeps e (x.keeps e h);
    sound = λ e h. elim (y.sound e h) [ inl k ↦ inl (x.adds_none e k) | inr q ↦ inr q ];
    same_bucketsize = y.same_bucketsize ∙ x.same_bucketsize;
    front = y.front;
  }

  module _ (t : Table) (w : IsWf sum width t) (pos : 0 < t.bucketsize) (cpl : ℕ)
      (deep : common_prefix_len (sum p) t.local ≡ some cpl) (b : Bucket)
      (at : get_elem? t.buckets (bucket_index cpl (length t.buckets)) ≡ some b) where
    -- The peer is in no bucket of the table when it is not in the bucket that Update looks at.
    absent_after :
        (u : Table)
        → Unfolds sum width t u
        → has p b ≡ false
        → (i : ℕ) (c : Bucket) → get_elem? u.buckets i ≡ some c
        → has p c ≡ false
    absent_after u x absent i c atc = elim (Bool-cases (has p c)) [
      | inr h ↦ h
      | inl h ↦
          let (e, rest, q, same, tk) = remove-Taken p c h in
          let held =
            x.adds_none e
              (record { index = i; bucket = c; found = atc; inside = In-Taken e tk (inl refl) }) in
          let m = has-In p b e (entry-place sum width d p t w cpl deep b e at held same) same in
          absurd (cc (m, absent))
    ]

    after_unfolding :
        (u : Table)
        → Unfolds sum width t u
        → has p b ≡ false
        → (c : Bucket) → get_elem? u.buckets (bucket_index cpl (length u.buckets)) ≡ some c
        → update sum p t ≡ update_unfolded sum p cpl u
        → Outcome sum width p t
    after_unfolding u x absent c atc e = elim (Bool-cases (leb u.bucketsize (length c))) [
      | inl f ↦ (
        u,
        some no_capacity,
        e ∙ unfolded_full sum p cpl u c atc f,
        Updates-after t u u (some no_capacity) x (Updates-rejected u x.wf),
      )
      | inr f ↦
          let ns = u.notices ++ peer_added p ∷ [] in
          let i = bucket_index cpl (length u.buckets) in
          let v = record u { buckets = set u.buckets i (new_entry sum p ∷ c); notices = ns } in
          (
            v,
            none,
            e ∙ unfolded_room sum p cpl u c atc f,
            Updates-after t u v none x (
                push-Updates sum width d p u x.wf cpl
                  (ap (λ l. common_prefix_len (sum p) l) x.same_local ∙ deep) c atc
                  (absent_after u x absent i c atc) (ground arith) ns),
          )
    ]

    unfolded-Outcome :
        has p b ≡ false
        → ltb (length b) t.bucketsize ≡ false
        → (bucket_index cpl (length t.buckets) == length t.buckets - 1) ≡ true
        → Outcome sum width p t
    unfolded-Outcome absent full l =
        let i = bucket_index cpl (length t.buckets) in
        let shallow : length t.buckets ≤ width * 8 + 1 =
          full_last-le sum width d p t w cpl deep b at (omega (arith, ltb→le _ _ full))
            ((==_iff i (length t.buckets - 1)).0 l) in
        let (u, n, x) =
          next_bucket-Unfolds sum width d (length t.local * 8 + 2) t w pos shallow
            (omega (arith, w.local_width)) in
        let (c, atc) =
          get_elem?-some u.buckets (bucket_index cpl (length u.buckets))
            (index-lt cpl (length u.buckets) x.wf.nonempty) in
        after_unfolding u x absent c atc (update_unfolds sum p t cpl b deep at u absent full l n)

    placed-Outcome : Outcome sum width p t
    placed-Outcome = elim (Bool-cases (has p b)) [
      | inl present ↦
          let (c, m, x) = move-Updates sum width d p t w cpl deep b at present in
          (
            record t { buckets = set t.buckets (bucket_index cpl (length t.buckets)) c },
            none,
            update_present sum p t cpl b deep at c present m,
            x,
          )
      | inr absent ↦ elim (Bool-cases (ltb (length b) t.bucketsize)) [
        | inl room ↦ (
          record t {
            buckets = set t.buckets (bucket_index cpl (length t.buckets)) (new_entry sum p ∷ b);
            notices = t.notices ++ peer_added p ∷ [];
          },
          none,
          update_room sum p t cpl b deep at absent room,
          push-Updates sum width d p t w cpl deep b at absent (ltb→lt _ _ room)
              (t.notices ++ peer_added p ∷ []),
        )
        | inr full ↦
            elim (Bool-cases (bucket_index cpl (length t.buckets) == length t.buckets - 1)) [
              | inl l ↦ unfolded-Outcome absent full l
              | inr l ↦ (
                t,
                some no_capacity,
                update_full sum p t cpl b deep at absent full l,
                Updates-rejected t w,
              )
            ]
      ]
    ]

  -- Where digests have one size, on a well-formed table with a positive bucket size Update ends
  -- without a panic, and nextBucket, which it may call, ends; the table is well formed again and
  -- holds the old entries and, if no error is returned, the peer, in front of a bucket, and nothing
  -- else.
  pub update-Updates :
      (t : Table)
      → IsWf sum width t
      → 0 < t.bucketsize
      → (u : Table) × (r : Option Rejection) × (update sum p t ≡ ok (u, r))
        × Updates sum width p t u r
  update-Updates t w pos =
      let (cpl, deep, l) =
        common_prefix_len_total (sum p) t.local (omega (arith, d.sized p, w.local_width)) in
      let (b, at) =
        get_elem?-some t.buckets (bucket_index cpl (length t.buckets))
          (index-lt cpl (length t.buckets) w.nonempty) in
      placed-Outcome t w pos cpl deep b at
