-- ===== src/Kademlia/Table/Wf.antt =====
-- What a routing table of discovery/kademlia/kademlia.go is like between two calls.
use go_devp2p.Prelude.{
  ℕ, zero, suc, ◌<◌, ◌≤◌, ◌≡◌, sym, some, [], ◌∷◌, Bytes, length, get_elem?, some_inj, All, In,
  arith,
}
use go_devp2p.Kademlia.Bucket.{Entry, Bucket, new_bucket}
use go_devp2p.Kademlia.Bucket.Move.{Distinct}
use go_devp2p.Kademlia.Bucket.Split.{At}
use go_devp2p.Kademlia.Table.{Table, bucket_index, new_routing_table}

-- What the table relies on in its digest function: digests have one size, 32 bytes in this program,
-- so that no comparison reads out of range.
pub record Digest (sum : Bytes → Bytes) (width : ℕ) : Type 0 where
  pub sized : (p : Bytes) → length (sum p) ≡ width

module _ (sum : Bytes → Bytes) where
  -- The entry stands in the bucket of its common prefix with the local identifier, where Update
  -- and Remove look for it, and carries the digest of its identifier.
  pub record IsPlaced (local : Bytes) (n i : ℕ) (e : Entry) : Type 0 where
    pub digest : e.hash ≡ sum e.id
    pub depth : ℕ
    pub at : At local e depth
    pub place : bucket_index depth n ≡ i

  -- The bucket with index `i` of a table of `n` buckets.
  pub record IsBucket (local : Bytes) (n bucketsize i : ℕ) (b : Bucket) : Type 0 where
    pub placed : All (IsPlaced local n i) b
    pub bounded : length b ≤ bucketsize
    pub distinct : Distinct b

  pub record IsWf (width : ℕ) (t : Table) : Type 0 where
    pub nonempty : 0 < length t.buckets
    pub local_width : length t.local ≡ width
    pub bucket :
        (i : ℕ) (b : Bucket)
        → get_elem? t.buckets i ≡ some b
        → IsBucket t.local (length t.buckets) t.bucketsize i b

  new_bucket-IsBucket :
      (bucketsize : ℕ) (local : Bytes) (i : ℕ) (b : Bucket)
      → get_elem? (new_bucket ∷ []) i ≡ some b
      → IsBucket local 1 bucketsize i b
  new_bucket-IsBucket bucketsize local zero b h =
      rw (sym (some_inj h)) (record { placed = tt; bounded = omega arith; distinct = tt })
  new_bucket-IsBucket bucketsize local (suc i) b h = cc

  -- Where digests have one size, a new table, with its one empty bucket, is well formed.
  pub new_routing_table-IsWf :
      (width : ℕ)
      → Digest sum width
      → (bucketsize : ℕ) (peer : Bytes) → IsWf width (new_routing_table sum bucketsize peer)
  unfolding new_routing_table
  new_routing_table-IsWf width d bucketsize peer = record {
    nonempty = omega arith;
    local_width = d.sized peer;
    bucket = new_bucket-IsBucket bucketsize (sum peer);
  }

-- Some bucket of the table holds the entry.
pub record Holds (t : Table) (e : Entry) : Type 0 where
  pub index : ℕ
  pub bucket : Bucket
  pub found : get_elem? t.buckets index ≡ some bucket
  pub inside : In e bucket

empty_buckets :
    (e : Entry) (i : ℕ) (b : Bucket) → get_elem? (new_bucket ∷ []) i ≡ some b → In e b → ⊥
empty_buckets e zero b h m = rw (sym (some_inj h)) at m
empty_buckets e (suc i) b h m = cc

-- A new table holds no entry.
pub new_routing_table-empty :
    (sum : Bytes → Bytes) (bucketsize : ℕ) (peer : Bytes) (e : Entry)
    → Holds (new_routing_table sum bucketsize peer) e
    → ⊥
unfolding new_routing_table
new_routing_table-empty sum bucketsize peer e h = empty_buckets e h.index h.bucket h.found h.inside
