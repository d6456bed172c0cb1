-- ===== src/Tests/Discv4.antt =====
-- discovery/discv4.go, with two keys, a digest that is a length, and values that are trees.
use mathlib.Core.Path.{subst}
use go_devp2p.Prelude.{
  ℕ, ◌+◌, ◌≤◌, ◌<◌, ◌≡◌, refl, ap, sym, some_inj, ◌∙◌, inl, inr, Bool, true, false, Option, none,
  some, List, [], ◌∷◌, ◌++◌, Bytes, bytes_eq, bytes_eq_refl, Bool-cases, IsBytes, length, map,
  get_elem?, replicate, take, All, ok, err, ◌==◌, ltb, if◌then◌else◌, arith, ◌>>=◌,
}
use go_devp2p.Crypto.{Curve, sign}
use go_devp2p.Crypto.Recover.{Laws}
use go_devp2p.Rlp.{bad, parsed}
use go_devp2p.Rlp.Tree.{num, tree_rlp}
use go_devp2p.Discv4.Hex.{encode_to_hex}
use go_devp2p.Discv4.Peer.{UdpAddr, Time, Peer, new_peer, to_peer, to_rpc_node}
use go_devp2p.Discv4.Peer.RoundTrip.{peer_of, new_peer-encode_to_hex, to_peer-to_rpc_node}
use go_devp2p.Discv4.Packet.{decode_packet, encode_packet}
use go_devp2p.Discv4.Packet.RoundTrip.{decode_packet-encode_packet}
use go_devp2p.Kademlia.Table.Nearest.{Nearest}
use go_devp2p.Discv4.Messages.{
  PingRequest, marshal_ping, FindNodeRequest, marshal_find_node, unmarshal_find_node,
}
use go_devp2p.Discv4.Messages.RoundTrip.{unmarshal_find_node-marshal_find_node}
use go_devp2p.Discv4.Backend.{
  Env, Datagram, RespMessage, Backend, undecodable, bond_expiration, hash, new_backend, update_peer,
  has_expired, get_node, probe_node_end, nearest_peers_from_target,
}
use go_devp2p.Discv4.Backend.Nodes.{
  IsValid, UpdatesPeer, new_backend-IsValid, update_peer-UpdatesPeer, nearest_peers_from_target_lem,
}
use go_devp2p.Discv4.Handle.{Packet, handle_find_node, handle_packet}
use go_devp2p.Discv4.Handle.Total.{Handled, handle_packet-Handled}
use go_devp2p.Discv4.Handle.Bond.{
  IsQuiet, handle_packet-IsQuiet, has_expired-known, pong, probe_node_end-bonds,
}
use go_devp2p.Discv4.Handle.Neighbors.{joined, CarriesAll, with_sent, handle_find_node-CarriesAll}
use go_devp2p.Discv4.Handle.Undecodable.{handle_packet-encode_packet}
use go_devp2p.Discv4.FindNodes.{
  collecting, finished, request_neighbors, find_nodes_begin, send_tasks, collect_all,
}
use go_devp2p.Discv4.FindNodes.Collect.{
  IsWhole, Arrives, received, timed_out, collect_all-handle_find_node,
}
use go_devp2p.Discv4.FindNodes.Stored.{find_nodes_begin-known}
use go_devp2p.Discv4.Lookup.{seed, replies}
use go_devp2p.Discv4.Lookup.Bounds.{ids}
use go_devp2p.Discv4.Lookup.Total.{replies-seed_ends}

abbrev pub flag : Bool → ℕ
flag true = 1
flag false = 0

abbrev pub key_of : Option ℕ → Option Bool
key_of none = none
key_of (some n) = some (n == 1)

abbrev pub toy : Curve
toy = record {
  PrivateKey = Bool;
  PublicKey = Bool;
  public_key = λ k. k;
  keccak = λ b. replicate 32 (length b);
  sign_compact = λ k h. some (27 ∷ flag k ∷ replicate 63 0);
  recover_compact = λ s h. key_of (get_elem? s 1);
  marshal = λ k. 4 ∷ flag k ∷ replicate 63 7;
  unmarshal = λ b. key_of (get_elem? b 1);
}

pub key_of-flag : (k : Bool) → key_of (some (flag k)) ≡ some k
key_of-flag true = refl
key_of-flag false = refl

flag-byte : (k : Bool) → flag k < 256
flag-byte true = omega arith
flag-byte false = omega arith

sevens : IsBytes (replicate 63 7)
sevens = ground arith

pub toy-Laws : Laws toy
toy-Laws = record {
  compact = λ k h s e. (
    27,
    flag k ∷ replicate 63 0,
    sym (some_inj e),
    inl refl,
    refl,
    ap (λ x. key_of (get_elem? x 1)) (sym (some_inj e)) ∙ key_of-flag k,
  );
  keccak_size = λ b. refl;
  marshal_size = λ k. refl;
  marshal_IsBytes = λ k. (omega arith, (flag-byte k, sevens));
  unmarshal_of_marshal = key_of-flag;
}

-- the signature that each key makes
abbrev pub signature : Bool → Bytes
signature k = flag k ∷ replicate 63 0 ++ 0 ∷ []

pub signs : (k : Bool) (h : Bytes) → (s : Bytes) × (sign toy k h ≡ ok s)
unfolding sign
signs k h = (signature k, refl)

abbrev here : UdpAddr
here = record { ip = 127 ∷ 0 ∷ 0 ∷ 1 ∷ []; port = 30303 }

abbrev there : UdpAddr
there = record { ip = 10 ∷ 0 ∷ 0 ∷ 9 ∷ []; port = 30304 }

abbrev env : Env
env = record {
  curve = toy;
  key = true;
  rlp = tree_rlp;
  ip_string = λ ip. ip;
  write_to = λ packet addr. true;
}

-- the local peer, of one key, and another one, of the other key
abbrev local : Peer
local = peer_of (1 ∷ replicate 63 7) here 0

abbrev other : Peer
other = peer_of (0 ∷ replicate 63 7) there 0

decode_packet-encode_packet_example :
    (packet : Bytes) × (encode_packet toy true 2 (9 ∷ []) ≡ ok packet)
    × (decode_packet toy packet ≡ ok (take 32 packet, 2 ∷ 9 ∷ [], toy.marshal true))
unfolding signs
decode_packet-encode_packet_example =
    decode_packet-encode_packet toy toy-Laws true 2 (9 ∷ []) (signature true)
      (signs true (replicate 32 2)).1

to_peer-to_rpc_node_example : to_peer (to_rpc_node other) ≡ ok (peer_of other.bytes there 0)
to_peer-to_rpc_node_example = to_peer-to_rpc_node other (omega arith, sevens) refl (omega arith)

abbrev fresh : Backend
fresh = new_backend env local

fresh-IsValid : IsValid env fresh
fresh-IsValid = new_backend-IsValid env toy-Laws local

update_peer-UpdatesPeer_example :
    (b' : Backend) × (update_peer env other fresh ≡ ok b') × UpdatesPeer env other fresh b'
update_peer-UpdatesPeer_example = update_peer-UpdatesPeer env toy-Laws other fresh fresh-IsValid

probe_node_end-bonds_example :
    (b' : Backend) × (probe_node_end env
        (pong env toy-Laws other fresh fresh-IsValid 5000 [])
        other
        fresh
      ≡ ok (b', true))
    × IsValid env b'
    × ((q : Peer) (received : Time)
        → q.id ≡ other.id
        → q.last ≡ some received
        → has_expired q b' ≡ ltb (5000 + bond_expiration) received)
probe_node_end-bonds_example = probe_node_end-bonds env toy-Laws other fresh fresh-IsValid 5000 []

-- the other peer in a packet of this time
abbrev other_at : Time → Peer
other_at time = record other { last = some time }

met :
    (b' : Backend) × (update_peer env (other_at 5000) fresh ≡ ok b')
    × UpdatesPeer env (other_at 5000) fresh b'
met = update_peer-UpdatesPeer env toy-Laws (other_at 5000) fresh fresh-IsValid

-- the backend that knows the other peer
abbrev bonded : Backend
bonded = met.0

bonded-node :
    (id : Bytes)
    → get_node id bonded.nodes ≡ (if bytes_eq other.id id then some (other_at 5000) else none)
unfolding get_node new_backend
bonded-node id = met.2.stored id

known : get_node other.id bonded.nodes ≡ some (other_at 5000)
known = bonded-node other.id ∙ rw (bytes_eq_refl other.id) refl

bond : has_expired (other_at 6000) bonded ≡ false
bond = has_expired-known (other_at 6000) (other_at 5000) bonded 6000 5000 refl known refl

bonded-IsWhole : (p : Peer) → get_node p.id bonded.nodes ≡ some p → IsWhole p
bonded-IsWhole p at = elim (Bool-cases (bytes_eq other.id p.id)) [
  | inl e ↦
      let same : other_at 5000 ≡ p = some_inj (sym (bonded-node p.id ∙ rw e refl) ∙ at) in
      subst IsWhole same ((omega arith, sevens), refl, omega arith)
  | inr e ↦
      let none_there : get_node p.id bonded.nodes ≡ none = bonded-node p.id ∙ rw e refl in
      absurd (cc (at, none_there))
]

nearest_peers_from_target_lem_example :
    (ps : List Peer) × (nearest_peers_from_target env local.bytes bonded ≡ ok (ok ps))
    × (length ps ≤ 16)
    × All (λ p. get_node p.id bonded.nodes ≡ some p) ps
    × Nearest (hash env (encode_to_hex local.bytes)) 16 bonded.table (map (λ (p : Peer). p.id) ps)
nearest_peers_from_target_lem_example =
    nearest_peers_from_target_lem env toy-Laws bonded met.2.valid local.bytes

abbrev request : FindNodeRequest
request = record { target = local.bytes; expiration = 0 }

abbrev request_payload : Bytes
request_payload = tree_rlp.marshal (marshal_find_node tree_rlp request)

request_decoded : (parsed tree_rlp request_payload >>= unmarshal_find_node tree_rlp) ≡ ok request
request_decoded =
    rw (tree_rlp.parse_of_marshal (marshal_find_node tree_rlp request))
      (unmarshal_find_node-marshal_find_node tree_rlp request (omega arith))

handle_find_node-CarriesAll_example :
    (ps : List Peer) × (ss : List (List Peer)) × (ds : List Datagram) × (nearest_peers_from_target
        env request.target bonded
      ≡ ok (ok ps))
    × (handle_find_node env request_payload (other_at 6000) bonded
        ≡ with_sent bonded (bonded.sent ++ ds))
    × CarriesAll env (other_at 6000) ss ds
    × (joined ss ≡ ps)
    × All (λ s. length s ≤ 6) ss
    × (length ps ≤ 16)
    × (length ds ≤ 3)
    × All (λ p. get_node p.id bonded.nodes ≡ some p) ps
handle_find_node-CarriesAll_example =
    handle_find_node-CarriesAll env toy-Laws (signs true) (other_at 6000) (λ packet. refl) bonded
      request_payload request met.2.valid bond request_decoded

abbrev two_replies : List (List Peer)
two_replies = (other ∷ []) ∷ (other ∷ []) ∷ []

replies-seed_ends_example :
    (length (replies two_replies (seed (local ∷ []))).asked ≤ 2)
    × (2 ≤ 2
        → ((replies two_replies (seed (local ∷ []))).pending ≡ 0)
          × (ids (replies two_replies (seed (local ∷ []))).asked
              ≡ local.id ∷ (replies two_replies (seed (local ∷ []))).visited))
replies-seed_ends_example =
    replies-seed_ends (other.id ∷ []) (local ∷ []) two_replies
      ((inl refl, tt), ((inl refl, tt), tt))

collect_all-handle_find_node_example :
    (ps : List Peer) × (ds : List Datagram) × (ms : List RespMessage) × (nearest_peers_from_target
        env request.target bonded
      ≡ ok (ok ps))
    × (handle_find_node env request_payload (other_at 6000) bonded
        ≡ with_sent bonded (bonded.sent ++ ds))
    × Arrives env ds ms
    × (0 < length ps
        → (c : Backend)
        → collect_all (record env { key = false }) (ms ++ timed_out ∷ []) (collecting [] false) c
          ≡ ok (send_tasks (received ps) c, finished (ok (received ps))))
collect_all-handle_find_node_example =
    collect_all-handle_find_node env toy-Laws (signs true) (other_at 6000) (λ packet. refl) false
      (λ packet addr. true) bonded request_payload request 7000 met.2.valid bonded-IsWhole bond
      request_decoded

find_nodes_begin-known_example :
    find_nodes_begin env 9000 1 (other_at 5000) bonded
    ≡ request_neighbors env 9000 1 (other_at 5000) bonded
find_nodes_begin-known_example =
    find_nodes_begin-known env 9000 1 (other_at 5000) bonded 5000 known refl

-- a ping of the other peer that carries no message
no_ping :
    (packet : Bytes) × (encode_packet toy false 1 [] ≡ ok packet)
    × (decode_packet toy packet ≡ ok (take 32 packet, 1 ∷ [], toy.marshal false))
unfolding signs
no_ping =
    decode_packet-encode_packet toy toy-Laws false 1 [] (signature false)
      (signs false (replicate 32 1)).1

abbrev no_ping_packet : Packet
no_ping_packet = record { buf = no_ping.0; from = some there; timestamp = 6000 }

sender : new_peer (encode_to_hex other.bytes) there 0 ≡ ok other
sender = new_peer-encode_to_hex other.bytes there 0 (omega arith, sevens)

handle_packet-Handled_example : Handled env (handle_packet env 6000 no_ping_packet fresh)
handle_packet-Handled_example =
    handle_packet-Handled env toy-Laws 6000 no_ping_packet fresh fresh-IsValid

-- a message of two elements
abbrev short_payload : Bytes
short_payload = tree_rlp.marshal (tree_rlp.new_array (num 1 ∷ num 2 ∷ []))

handle_packet-encode_packet_example :
    (buf : Bytes) × (encode_packet toy false 1 short_payload ≡ ok buf)
    × ((now received : Time) (b : Backend)
        → handle_packet env now (record { buf = buf; from = some there; timestamp = received }) b
          ≡ err (undecodable bad))
unfolding signs
handle_packet-encode_packet_example =
    handle_packet-encode_packet env toy-Laws false (num 1 ∷ num 2 ∷ []) (signature false) there
      (omega arith) (signs false (toy.keccak (1 ∷ short_payload))).1

-- a ping that is one
abbrev ping : PingRequest
ping = record {
  version = 4;
  from = record { ip = there.ip; udp = 30304; tcp = 0 };
  to = record { ip = here.ip; udp = 30303; tcp = 0 };
  expiration = 1700000000;
}

abbrev ping_payload : Bytes
ping_payload = tree_rlp.marshal (marshal_ping tree_rlp ping)

pinged :
    (packet : Bytes) × (encode_packet toy false 1 ping_payload ≡ ok packet)
    × (decode_packet toy packet ≡ ok (take 32 packet, 1 ∷ ping_payload, toy.marshal false))
unfolding signs
pinged =
    decode_packet-encode_packet toy toy-Laws false 1 ping_payload (signature false)
      (signs false (toy.keccak (1 ∷ ping_payload))).1

abbrev ping_packet : Packet
ping_packet = record { buf = pinged.0; from = some there; timestamp = 6000 }

no_bond : has_expired (other_at 6000) fresh ≡ true
unfolding has_expired get_node new_backend
no_bond = refl

handle_packet-IsQuiet_example : IsQuiet 1 there fresh (handle_packet env 6000 ping_packet fresh)
handle_packet-IsQuiet_example =
    handle_packet-IsQuiet env ping_packet (take 32 pinged.0) ping_payload other.bytes 1 4 there
      other pinged.2 refl sender 6000 fresh toy-Laws no_bond
