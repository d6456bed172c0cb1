-- ===== src/Kademlia/Sorting.antt =====
-- discovery/kademlia/sorting.go: peers sorted by their XOR distance to a target.
pub mod Order
use go_devp2p.Prelude.{
  Bool, List, [], ◌∷◌, ◌++◌, Bytes, if◌then◌else◌, Result, ok, ◌>>=◌, from_option,
}
use go_devp2p.Kademlia.Key.{less, xor}
use go_devp2p.Kademlia.Bucket.{Fault, Bucket, panic}

pub record PeerDistance : Type 0 where
  pub p : Bytes
  pub distance : Bytes

-- peerDistanceSorter.appendPeer and appendPeersFromList
unfoldable pub append_peers_from_list :
    Bytes → List PeerDistance → Bucket → Result Fault (List PeerDistance)
append_peers_from_list target pds [] = ok pds
append_peers_from_list target pds (e ∷ es) = do
  distance ← from_option panic (xor target e.hash)
  append_peers_from_list target (pds ++ record { p = e.id; distance = distance } ∷ []) es

-- peerDistanceSorter.Less
unfoldable pub closer : PeerDistance → PeerDistance → Bool
closer a b = less a.distance b.distance

-- sort.Sort over Less. The order among equal distances is not specified there; here it is kept.
unfoldable pub insert : PeerDistance → List PeerDistance → List PeerDistance
insert a [] = a ∷ []
insert a (b ∷ bs) = let rest = insert a bs in if closer b a then b ∷ rest else a ∷ b ∷ bs

unfoldable pub sort : List PeerDistance → List PeerDistance
unfolding insert
sort [] = []
sort (a ∷ as') = insert a (sort as')
