-- ===== src/Kademlia/Table/Replace.antt =====
-- One bucket of a table is replaced.
use native.Mathlib.Decide.{ℕ_discrete}
use mathlib.Core.Path.{subst, subst₂}
use go_devp2p.Prelude.{
  ℕ, ◌≡◌, ◌≢◌, sym, ◌∙◌, ◌⊎◌, inl, inr, some, List, Bytes, length, length-set, get_elem?, set,
  some_inj, get_elem?-set, get_elem?-lt, ◌==◌, if◌then◌else◌, In, arith,
}
use go_devp2p.Kademlia.Bucket.{Entry, Bucket}
use go_devp2p.Kademlia.Table.{Table, Notice}
use go_devp2p.Kademlia.Table.Wf.{IsBucket, IsWf, Holds}

-- One bucket of a table is replaced.
module _ (sum : Bytes → Bytes) (width : ℕ) (t : Table) (w : IsWf sum width t) (i : ℕ) (b c : Bucket)
    (at : get_elem? t.buckets i ≡ some b) (ns : List Notice) where
  abbrev pub replaced : Table
  replaced = record t { buckets = set t.buckets i c; notices = ns }

  get_replaced :
      (j : ℕ) → get_elem? replaced.buckets j ≡ (if i == j then some c else get_elem? t.buckets j)
  get_replaced j = get_elem?-set t.buckets i j c ∙ ground (arith, get_elem?-lt t.buckets i at)

  pub replaced-IsWf :
      IsBucket sum t.local (length t.buckets) t.bucketsize i c → IsWf sum width replaced
  replaced-IsWf bc = record {
    nonempty = omega (arith, w.nonempty, length-set t.buckets i c);
    local_width = w.local_width;
    bucket = λ j x h. rw (length-set t.buckets i c) (elim (ℕ_discrete i j) [
      | yes p ↦
          subst₂ (λ k y. IsBucket sum t.local (length t.buckets) t.bucketsize k y) p
            (some_inj (sym (get_replaced j ∙ ground arith) ∙ h)) bc
      | no p ↦ w.bucket j x (sym (get_replaced j ∙ ground arith) ∙ h)
    ]);
  }

  pub Holds-replaced : (e : Entry) → Holds replaced e → In e c ⊎ ((k : Holds t e) × (k.index ≢ i))
  Holds-replaced e h = elim (ℕ_discrete i h.index) [
    | yes p ↦ inl (
        subst (λ x. In e x) (some_inj (sym h.found ∙ get_replaced h.index ∙ ground arith)) h.inside)
    | no p ↦ inr (
      record {
        index = h.index;
        bucket = h.bucket;
        found = sym (get_replaced h.index ∙ ground arith) ∙ h.found;
        inside = h.inside;
      },
      λ q. p (sym q),
    )
  ]

  pub replaced_at : get_elem? replaced.buckets i ≡ some c
  replaced_at = get_replaced i ∙ ground arith

  pub replaced_new : (e : Entry) → In e c → Holds replaced e
  replaced_new e m = record { index = i; bucket = c; found = replaced_at; inside = m }

  -- An entry of another bucket, or of the new one, is held.
  pub replaced_old : (e : Entry) → Holds t e → In e b ⊎ Holds replaced e
  replaced_old e h = elim (ℕ_discrete i h.index) [
    | yes p ↦ inl (subst (λ x. In e x) (some_inj (sym h.found ∙ (rw (← p) at))) h.inside)
    | no p ↦ inr (record {
      index = h.index;
      bucket = h.bucket;
      found = get_replaced h.index ∙ ground arith ∙ h.found;
      inside = h.inside;
    })
  ]
