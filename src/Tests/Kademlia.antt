-- ===== src/Tests/Kademlia.antt =====
-- The routing table of discovery/kademlia on a few peers, under a digest of one byte.
use go_devp2p.Prelude.{◌<◌, ◌≡◌, refl, some, List, [], ◌∷◌, Bytes, length, Option, ok, arith}
use go_devp2p.Kademlia.Key.{common_prefix_len}
use go_devp2p.Kademlia.Key.Prefix.{bits, common, common_prefix_len-eq-common}
use go_devp2p.Kademlia.Bucket.{Entry, Bucket, move_to_front}
use go_devp2p.Kademlia.Bucket.Move.{to_front_from, move_to_front-Distinct}
use go_devp2p.Kademlia.Table.{
  Table, Rejection, new_routing_table, update, remove_peer, nearest_peers,
}
use go_devp2p.Kademlia.Table.Wf.{Digest, IsWf, new_routing_table-IsWf}
use go_devp2p.Kademlia.Table.Update.{Updates}
use go_devp2p.Kademlia.Table.Members.{update-Updates}
use go_devp2p.Kademlia.Table.Nearest.{Nearest, nearest_peers-Nearest}
use go_devp2p.Kademlia.Table.Removal.{Removes, remove_peer-Removes}

abbrev first_byte : Bytes → Bytes
first_byte [] = 0 ∷ []
first_byte (b ∷ bs) = b ∷ []

first_byte-Digest : Digest first_byte 1
first_byte-Digest = record { sized = sized_one }
  where
    sized_one : (p : Bytes) → length (first_byte p) ≡ 1
    sized_one [] = refl
    sized_one (b ∷ bs) = refl

abbrev local_peer : Bytes
local_peer = 1 ∷ []

abbrev far_peer : Bytes
far_peer = 200 ∷ 7 ∷ []

abbrev near_peer : Bytes
near_peer = 3 ∷ []

abbrev empty_table : Table
empty_table = new_routing_table first_byte 1 local_peer

empty_table-IsWf : IsWf first_byte 1 empty_table
empty_table-IsWf = new_routing_table-IsWf first_byte 1 first_byte-Digest 1 local_peer

empty_bucketsize : 0 < empty_table.bucketsize
unfolding new_routing_table
empty_bucketsize = omega arith

abbrev one_peer : Table
one_peer =
    (update-Updates first_byte 1 first_byte-Digest far_peer empty_table empty_table-IsWf
      empty_bucketsize).0

one_peer-IsWf : IsWf first_byte 1 one_peer
one_peer-IsWf =
    (update-Updates first_byte 1 first_byte-Digest far_peer empty_table empty_table-IsWf
      empty_bucketsize).3.wf

update-Updates_example :
    (u : Table) × (r : Option Rejection) × (update first_byte far_peer empty_table ≡ ok (u, r))
    × Updates first_byte 1 far_peer empty_table u r
update-Updates_example =
    update-Updates first_byte 1 first_byte-Digest far_peer empty_table empty_table-IsWf
      empty_bucketsize

remove_peer-Removes_example :
    (u : Table) × (remove_peer first_byte far_peer one_peer ≡ ok u)
    × Removes first_byte 1 far_peer one_peer u
remove_peer-Removes_example =
    remove_peer-Removes first_byte 1 first_byte-Digest far_peer one_peer one_peer-IsWf

common_prefix_len-eq-common_example :
    common_prefix_len (3 ∷ 200 ∷ []) (3 ∷ 201 ∷ [])
    ≡ some (common (bits (3 ∷ 200 ∷ [])) (bits (3 ∷ 201 ∷ [])))
common_prefix_len-eq-common_example =
    common_prefix_len-eq-common (3 ∷ 200 ∷ []) (3 ∷ 201 ∷ []) (omega arith, (omega arith, tt))
      (omega arith, (omega arith, tt)) (omega arith)

abbrev far_entry : Entry
far_entry = record { id = far_peer; hash = 200 ∷ [] }

abbrev near_entry : Entry
near_entry = record { id = near_peer; hash = 3 ∷ [] }

abbrev two_entries : Bucket
two_entries = far_entry ∷ near_entry ∷ []

move_to_front-Distinct_example :
    move_to_front 4 near_peer two_entries ≡ ok (to_front_from near_peer [] two_entries)
move_to_front-Distinct_example =
    move_to_front-Distinct 4 near_peer two_entries (omega arith) (((λ e. cc), tt), (tt, tt))

nearest_peers-Nearest_example :
    (ps : List Bytes) × (nearest_peers first_byte near_peer 2 one_peer ≡ ok ps)
    × Nearest (first_byte near_peer) 2 one_peer ps
nearest_peers-Nearest_example =
    nearest_peers-Nearest first_byte 1 first_byte-Digest near_peer one_peer one_peer-IsWf 2
