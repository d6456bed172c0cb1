-- ===== src/Kademlia/Table.antt =====
-- discovery/kademlia/kademlia.go: the routing table. The lock and the latency, which no operation
-- reads, are not modelled; the notification functions are a log of the calls made.
pub mod Wf
pub mod Step
pub mod Replace
pub mod Unfold
pub mod Update
pub mod Members
pub mod Removal
pub mod Nearest
use go_devp2p.Prelude.{
  ℕ, zero, suc, ◌+◌, ◌-◌, ◌*◌, Bool, true, false, Option, none, some, List, [], ◌∷◌, ◌++◌, map,
  Bytes, bytes_eq, length, get_elem?, set, take, leb, ltb, ◌==◌, if◌then◌else◌, Result, ok, err,
  ◌>>=◌, from_option,
}
use go_devp2p.Kademlia.Key.{common_prefix_len}
use go_devp2p.Kademlia.Bucket.{
  Fault, Entry, Bucket, panic, diverges, new_bucket, peers, has, remove, move_to_front, push_front,
  split,
}
use go_devp2p.Kademlia.Sorting.{PeerDistance, append_peers_from_list, sort}

-- ErrPeerRejectedHighLatency and ErrPeerRejectedNoCapacity
pub data Rejection : Type 0 where
  high_latency no_capacity : Rejection

pub data Notice : Type 0 where
  peer_added peer_removed : Bytes → Notice

pub record Table : Type 0 where
  pub local : Bytes
  pub buckets : List Bucket
  pub bucketsize : ℕ
  pub notices : List Notice

-- The index of the bucket for a common prefix, in a table of `n` buckets.
abbrev pub bucket_index : ℕ → ℕ → ℕ
bucket_index cpl n = if leb n cpl then n - 1 else cpl

abbrev pub bucket_at : Table → ℕ → Result Fault Bucket
bucket_at t i = from_option panic (get_elem? t.buckets i)

-- RoutingTable.nextBucket, which calls itself while the new bucket is full
unfoldable pub next_bucket : ℕ → Table → Result Fault Table
next_bucket zero t = err diverges
next_bucket (suc fuel) t = do
  let last = length t.buckets - 1
  bucket ← bucket_at t last
  (kept, out) ← split last t.local bucket
  let t' = record t { buckets = set t.buckets last kept ++ out ∷ [] }
  let again = next_bucket fuel t'
  if leb t.bucketsize (length out) then again else ok t'

-- The hash of the table: a digest function that is not part of this repository.
module _ (sum : Bytes → Bytes) where
  -- NewRoutingTable
  unfoldable pub new_routing_table : ℕ → Bytes → Table
  new_routing_table bucketsize peer = record {
    local = sum peer;
    buckets = new_bucket ∷ [];
    bucketsize = bucketsize;
    notices = [];
  }

  abbrev add_front : Bytes → ℕ → Bucket → Table → Table
  add_front p i bucket t = record t {
    buckets = set t.buckets i (push_front (record { id = p; hash = sum p }) bucket);
    notices = t.notices ++ peer_added p ∷ [];
  }

  -- the part of Update behind the unfolding of the last bucket
  unfoldable pub update_unfolded : Bytes → ℕ → Table → Result Fault (Table × Option Rejection)
  update_unfolded p cpl t = do
    let i = bucket_index cpl (length t.buckets)
    bucket ← bucket_at t i
    if leb t.bucketsize (length bucket)
        then ok (t, some no_capacity)
        else ok (add_front p i bucket t, none)

  -- the rounds that MoveToFront and nextBucket are given
  abbrev pub move_rounds : Bucket → ℕ
  move_rounds b = length b + length b

  abbrev pub unfold_rounds : Table → ℕ
  unfold_rounds t = length t.local * 8 + 2

  -- RoutingTable.Update; the evicted peer that it returns is "" on every path
  unfoldable pub update : Bytes → Table → Result Fault (Table × Option Rejection)
  unfolding update_unfolded
  update p t = do
    cpl ← from_option panic (common_prefix_len (sum p) t.local)
    let n = length t.buckets
    let i = bucket_index cpl n
    bucket ← bucket_at t i
    if has p bucket
        then (do
          moved ← move_to_front (move_rounds bucket) p bucket
          ok (record t { buckets = set t.buckets i moved }, none))
        else if ltb (length bucket) t.bucketsize
        then ok (add_front p i bucket t, none)
        else if i == n - 1
        then (do t' ← next_bucket (unfold_rounds t) t; update_unfolded p cpl t')
        else ok (t, some no_capacity)

  -- RoutingTable.Remove
  unfoldable pub remove_peer : Bytes → Table → Result Fault Table
  remove_peer p t = do
    cpl ← from_option panic (common_prefix_len (sum p) t.local)
    let i = bucket_index cpl (length t.buckets)
    bucket ← bucket_at t i
    let (rest, removed) = remove p bucket
    let t' = record t { buckets = set t.buckets i rest }
    ok (if removed then record t' { notices = t.notices ++ peer_removed p ∷ [] } else t')

  -- RoutingTable.NearestPeers
  unfoldable pub nearest_peers : Bytes → ℕ → Table → Result Fault (List Bytes)
  nearest_peers peer count t = do
    let id = sum peer
    c ← from_option panic (common_prefix_len id t.local)
    let n = length t.buckets
    let cpl = bucket_index c n
    bucket ← bucket_at t cpl
    pds ← append_peers_from_list id [] bucket
    all ←
        (if ltb (length pds) count
          then (do
            below ←
                (if ltb 0 cpl
                  then (do b ← bucket_at t (cpl - 1); append_peers_from_list id pds b)
                  else ok pds)
            if ltb cpl (n - 1)
                then (do b ← bucket_at t (cpl + 1); append_peers_from_list id below b)
                else ok below)
          else ok pds)
    ok (map (λ (d : PeerDistance). d.p) (take count (sort all)))

  -- RoutingTable.NearestPeer
  unfoldable pub nearest_peer : Bytes → Table → Result Fault Bytes
  nearest_peer id t = do found ← nearest_peers id 1 t; ok (elim found [ [] ↦ [] | p ∷ ps ↦ p ])

  -- RoutingTable.Find
  unfoldable pub find : Bytes → Table → Result Fault Bytes
  find id t = do
    found ← nearest_peers id 1 t
    ok (elim found [ [] ↦ [] | p ∷ ps ↦ if bytes_eq p id then p else [] ])

-- RoutingTable.ListPeers
unfoldable pub peers_of : List Bucket → List Bytes
unfolding peers
peers_of [] = []
peers_of (b ∷ bs) = peers b ++ peers_of bs

unfoldable pub list_peers : Table → List Bytes
unfolding peers_of
list_peers t = peers_of t.buckets

-- RoutingTable.Size
unfoldable pub size_of : List Bucket → ℕ
size_of [] = 0
size_of (b ∷ bs) = length b + size_of bs

unfoldable pub size : Table → ℕ
unfolding size_of
size t = size_of t.buckets
