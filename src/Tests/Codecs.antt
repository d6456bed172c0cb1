-- ===== src/Tests/Codecs.antt =====
-- The codecs of discovery/discv4.go, wire/eth/messages.go and enr/enr.go, with values that are trees.
use go_devp2p.Prelude.{
  ◌^◌, ◌≡◌, refl, true, false, some, [], ◌∷◌, replicate, ok, err, bytes_eq, bytes_lt, arith,
}
use go_devp2p.ForkId.{Identifier}
use go_devp2p.Rlp.Tree.{num, tree_rlp}
use go_devp2p.Discv4.Messages.{
  RpcEndpoint, RpcNode, PingRequest, FindNodeRequest, NeighborsResponse,
}
use go_devp2p.Eth.Messages.{BlockHeadersPacket, Status}
use go_devp2p.Eth.Messages.RoundTrip.{StatusFits, HeadersFits}
use go_devp2p.Enr.{
  Record, lookup, add_entry, marshal_text, unmarshal_text, duplicated_key, key_not_found,
}
use go_devp2p.Enr.Entries.{Ascending}
use go_devp2p.Enr.RoundTrip.{unmarshal_text-marshal_text, unmarshal_text-add_entry}

abbrev endpoint : RpcEndpoint
endpoint = record { ip = 127 ∷ 0 ∷ 0 ∷ 1 ∷ []; udp = 30303; tcp = 30304 }

abbrev ping : PingRequest
ping = record { version = 4; from = endpoint; to = endpoint; expiration = 1700000000 }

abbrev find_node : FindNodeRequest
find_node = record { target = 1 ∷ 2 ∷ []; expiration = 1700000000 }

abbrev node : RpcNode
node = record { ip = 127 ∷ 0 ∷ 0 ∷ 1 ∷ []; udp = 30303; tcp = 30304; id = 9 ∷ 8 ∷ [] }

abbrev neighbors : NeighborsResponse
neighbors = record { nodes = node ∷ node ∷ []; expiration = 1700000000 }

abbrev fork : Identifier
fork = record { hash = 1 ∷ 2 ∷ 3 ∷ 4 ∷ []; next = 100 }

abbrev mainnet : Status
mainnet = record {
  protocol_version = 66;
  network_id = 1;
  td = 10 ^ 30;
  head = replicate 32 5;
  genesis = replicate 32 6;
  fork_id = fork;
}

mainnet-StatusFits : StatusFits mainnet
mainnet-StatusFits = record {
  version = omega arith;
  network = omega arith;
  head = refl;
  genesis = refl;
  fork_hash = refl;
  fork_next = omega arith;
}

abbrev by_hash : BlockHeadersPacket
by_hash = record { hash = some (replicate 32 7); number = 0; amount = 3; skip = 1; reverse = true }

by_hash-HeadersFits : HeadersFits by_hash
by_hash-HeadersFits = record { origin = (refl, refl); amount = omega arith; skip = omega arith }

-- The keys "id" and "ip".
abbrev pub node_record : Record tree_rlp
node_record = record {
  seq = 3;
  signature = 1 ∷ 1 ∷ [];
  entries = (105 ∷ 100 ∷ [], num 4) ∷ (105 ∷ 112 ∷ [], num 5) ∷ [];
}

pub node_record-Ascending : Ascending tree_rlp node_record.entries
unfolding bytes_lt
node_record-Ascending = (refl, tt)

udp_fresh : lookup tree_rlp (117 ∷ []) node_record.entries ≡ err key_not_found
unfolding lookup bytes_eq
udp_fresh = refl

ip_there : lookup tree_rlp (105 ∷ 112 ∷ []) node_record.entries ≡ ok (num 5)
unfolding lookup bytes_eq
ip_there = refl

other_key : bytes_eq (117 ∷ []) (105 ∷ 112 ∷ []) ≡ false
unfolding bytes_eq
other_key = refl

unmarshal_text-marshal_text_example :
    unmarshal_text tree_rlp
      (λ b. b)
      (λ b. some b)
      (marshal_text tree_rlp (λ b. b) (λ b. some b) node_record)
    ≡ ok node_record
unmarshal_text-marshal_text_example =
    unmarshal_text-marshal_text tree_rlp (λ b. b) (λ b. some b) (λ b. refl) node_record
      (omega arith) node_record-Ascending

unmarshal_text-add_entry_example :
    unmarshal_text tree_rlp
      (λ b. b)
      (λ b. some b)
      (marshal_text tree_rlp
        (λ b. b)
        (λ b. some b)
        (add_entry tree_rlp node_record (105 ∷ 112 ∷ []) (num 6)))
    ≡ err duplicated_key
unmarshal_text-add_entry_example =
    unmarshal_text-add_entry tree_rlp (λ b. b) (λ b. some b) (λ b. refl) node_record
      (105 ∷ 112 ∷ []) (num 5) (num 6) (omega arith) node_record-Ascending ip_there
