-- ===== src/Kademlia/Table/Removal.antt =====
-- Remove of discovery/kademlia/kademlia.go on a well-formed table.
use go_devp2p.Prelude.{
  ℕ, ◌≡◌, ◌≢◌, refl, ap, sym, ◌∙◌, inl, inr, Bool, true, false, some, [], ◌∷◌, ◌++◌, Bytes, length,
  get_elem?, set, get_elem?-some, if◌then◌else◌, ok, In, All-In, All-of_In, Bool-cases, arith,
}
use go_devp2p.Kademlia.Key.{common_prefix_len}
use go_devp2p.Kademlia.Key.Bounds.{common_prefix_len_total}
use go_devp2p.Kademlia.Bucket.{Entry, Bucket, has, remove}
use go_devp2p.Kademlia.Bucket.Taken.{
  Taken, Taken-In, In-Taken, length-Taken, Distinct-Taken, remove-Taken, remove_absent, In-has,
}
use go_devp2p.Kademlia.Table.{Table, peer_removed, bucket_index, remove_peer}
use go_devp2p.Kademlia.Table.Wf.{Digest, IsPlaced, IsBucket, IsWf, Holds}
use go_devp2p.Kademlia.Table.Replace.{replaced-IsWf, Holds-replaced, replaced_new, replaced_old}
use go_devp2p.Kademlia.Table.Update.{entry-index, entry-place}
use go_devp2p.Kademlia.Table.Members.{index-lt}

-- What Remove does: the entries with another identifier are those that stay.
pub record Removes (sum : Bytes → Bytes) (width : ℕ) (p : Bytes) (t u : Table) : Type 0 where
  pub wf : IsWf sum width u
  pub keeps : (e : Entry) → Holds t e → e.id ≢ p → Holds u e
  pub sound : (e : Entry) → Holds u e → Holds t e × (e.id ≢ p)
  pub told : (e : Entry) → Holds t e → e.id ≡ p → u.notices ≡ t.notices ++ peer_removed p ∷ []

module _ (sum : Bytes → Bytes) (p : Bytes) (t : Table) (cpl : ℕ) (b : Bucket)
    (deep : common_prefix_len (sum p) t.local ≡ some cpl)
    (at : get_elem? t.buckets (bucket_index cpl (length t.buckets)) ≡ some b) where
  remove_step :
      (rest : Bucket) (found : Bool)
      → remove p b ≡ (rest, found)
      → remove_peer sum p t ≡ (
          let u = record t { buckets = set t.buckets (bucket_index cpl (length t.buckets)) rest } in
          ok (if found then record u { notices = t.notices ++ peer_removed p ∷ [] } else u))
  unfolding remove_peer
  remove_step rest found e = rw (deep, at, e)

module _ (sum : Bytes → Bytes) (width : ℕ) (d : Digest sum width) (p : Bytes) (t : Table)
    (w : IsWf sum width t) (cpl : ℕ) (deep : common_prefix_len (sum p) t.local ≡ some cpl)
    (b : Bucket) (at : get_elem? t.buckets (bucket_index cpl (length t.buckets)) ≡ some b) where
  abbrev i : ℕ
  i = bucket_index cpl (length t.buckets)

  present-Removes :
      (e : Entry) (rest : Bucket)
      → e.id ≡ p
      → Taken e rest b
      → Removes sum width p t
          (record t { buckets = set t.buckets i rest; notices = t.notices ++ peer_removed p ∷ [] })
  present-Removes e rest same tk =
      let ns = t.notices ++ peer_removed p ∷ [] in
      let bk = w.bucket i b at in
      let dist = Distinct-Taken tk bk.distinct in
      let part = λ (x : Entry) (m : In x rest). In-Taken x tk (inr m) in
      let P = IsPlaced sum t.local (length t.buckets) i in
      let bc : IsBucket sum t.local (length t.buckets) t.bucketsize i rest = record {
        placed = All-of_In P rest (λ x m. All-In P b bk.placed x (part x m));
        bounded = omega (arith, length-Taken tk, bk.bounded);
        distinct = dist.1;
      } in
      record {
        wf = replaced-IsWf sum width t w i b rest at ns bc;
        keeps = λ x h ne. elim (replaced_old sum width t w i b rest at ns x h) [
          | inr k ↦ k
          | inl m ↦ elim (Taken-In x tk m) [
            | inl q ↦ absurd (ne (ap (λ (y : Entry). y.id) q ∙ same))
            | inr r ↦ replaced_new sum width t w i b rest at ns x r
          ]
        ];
        sound = λ x h. elim (Holds-replaced sum width t w i b rest at ns x h) [
          | inl m ↦ (
            record { index = i; bucket = b; found = at; inside = part x m },
            λ q. All-In (λ f. f.id ≢ e.id) rest dist.0 x m (q ∙ sym same),
          )
          | inr k ↦ (k.0, λ q. k.1 (entry-index sum width d p t w cpl deep x k.0 q))
        ];
        told = λ x h q. refl;
      }

  absent-Removes :
      has p b ≡ false → Removes sum width p t (record t { buckets = set t.buckets i b })
  absent-Removes absent =
      let none_here = λ (x : Entry) (h : Holds t x) (q : x.id ≡ p).
        All-In (λ f. f.id ≢ p) b (In-has p b absent) x
          (entry-place sum width d p t w cpl deep b x at h q) q in
      let back = λ (x : Entry) (h : Holds (record t { buckets = set t.buckets i b }) x).
        let k : Holds t x = elim (Holds-replaced sum width t w i b b at t.notices x h) [
          | inl m ↦ record { index = i; bucket = b; found = at; inside = m }
          | inr k ↦ k.0
        ] in
        k in
      record {
        wf = replaced-IsWf sum width t w i b b at t.notices (w.bucket i b at);
        keeps = λ x h ne. elim (replaced_old sum width t w i b b at t.notices x h) [
          | inr k ↦ k
          | inl m ↦ replaced_new sum width t w i b b at t.notices x m
        ];
        sound = λ x h. (back x h, none_here x (back x h));
        told = λ x h q. absurd (none_here x h q);
      }

module _ (sum : Bytes → Bytes) (width : ℕ) (d : Digest sum width) where
  -- Where digests have one size, on a well-formed table Remove ends without a panic, in a well-
  -- formed table that holds exactly the entries with another identifier, and tells of the removal
  -- if the peer was there.
  pub remove_peer-Removes :
      (p : Bytes) (t : Table)
      → IsWf sum width t
      → (u : Table) × (remove_peer sum p t ≡ ok u) × Removes sum width p t u
  remove_peer-Removes p t w =
      let (cpl, deep, l) =
        common_prefix_len_total (sum p) t.local (omega (arith, d.sized p, w.local_width)) in
      let j = bucket_index cpl (length t.buckets) in
      let (b, at) = get_elem?-some t.buckets j (index-lt cpl (length t.buckets) w.nonempty) in
      elim (Bool-cases (has p b)) [
        | inl present ↦
            let (e, rest, q, same, tk) = remove-Taken p b present in
            (
              record t {
                buckets = set t.buckets j rest;
                notices = t.notices ++ peer_removed p ∷ [];
              },
              remove_step sum p t cpl b deep at rest true q,
              present-Removes sum width d p t w cpl deep b at e rest same tk,
            )
        | inr absent ↦ (
          record t { buckets = set t.buckets j b },
          remove_step sum p t cpl b deep at b false (remove_absent p b absent),
          absent-Removes sum width d p t w cpl deep b at absent,
        )
      ]
