-- ===== src/Discv4/Backend.antt =====
-- Backend of discovery/discv4.go: its state, and the operations that the handlers share. A map is a
-- list of pairs, and a channel of responses is a number: what is sent to it is kept in `acks`, to be
-- received or, where nobody waits, lost. The two locks are not modelled: an operation is one step.
pub mod Nodes
pub mod Send
use go_devp2p.Prelude.{
  ℕ, zero, suc, ◌+◌, ◌*◌, ◌/◌, ◌%◌, ◌^◌, Bool, true, false, Option, none, some, List, [], ◌∷◌, ◌++◌,
  Bytes, bytes_eq, u64, length, ltb, ◌==◌, ◌&&◌, if◌then◌else◌, Result, ok, err, ◌>>=◌,
}
use go_devp2p.Crypto.{Curve, CryptoError, refused}
use go_devp2p.Rlp.{Rlp, CodecError}
use go_devp2p.Kademlia.Bucket.{Fault}
use go_devp2p.Kademlia.Table.{Table, Rejection, new_routing_table, nearest_peers, update}
use go_devp2p.Discv4.Hex.{encode_to_hex}
use go_devp2p.Discv4.Messages.{PingRequest, marshal_ping}
use go_devp2p.Discv4.Peer.{UdpAddr, Time, Peer, peer_has_expired, to_rpc_endpoint, enode}
use go_devp2p.Discv4.Packet.{encode_packet}

-- What a backend is given: the curve and its key, the RLP library, the text of an IP address, and
-- whether the transport takes a datagram.
pub record Env : Type 1 where
  pub curve : Curve
  pub key : curve.PrivateKey
  pub rlp : Rlp
  pub ip_string : Bytes → Bytes
  pub write_to : Bytes → UdpAddr → Bool

pub record RespMessage : Type 0 where
  pub complete : Bool
  pub payload : Bytes
  pub timestamp : Option Time

-- An entry of the map of handlers. Its key is the text of the identifier and the code, joined by an
-- underscore, which no identifier holds; its function sends to the channel.
pub record Handler : Type 0 where
  pub id : Bytes
  pub code : ℕ
  pub ack_ch : ℕ

pub record Datagram : Type 0 where
  pub addr : UdpAddr
  pub buf : Bytes

pub record Backend : Type 0 where
  pub local : Peer
  pub table : Table
  pub nodes : List (Bytes × Peer)
  pub handlers : List Handler
  pub tasks : List Peer
  pub event_ch : List Bytes
  pub active : Bool
  pub sent : List Datagram
  pub acks : List (ℕ × RespMessage)

-- the errors that the operations return
pub data Failure : Type 0 where
  bad_packet not_udp bad_peer_id expired peer_not_found not_sent unexpected unknown_code no_probe
        no_ping no_answer :
      Failure

-- a panic, which ends the program; `table` covers the panics of the routing table
pub data Panic : Type 0 where
  undecodable : CodecError → Panic
  table : Fault → Panic
  out_of_range : Panic

-- the outcome of an operation that returns an error
abbrev pub Outcome : Type 0
Outcome = Result Panic (Backend × Option Failure)

abbrev pub bucket_size : ℕ
bucket_size = 16

-- time.Second, and bondExpiration
abbrev pub second : ℕ
second = 10 ^ 9

abbrev pub bond_expiration : ℕ
bond_expiration = 24 * 3600 * second

-- the packet types
abbrev pub ping_packet : ℕ
ping_packet = 1

abbrev pub pong_packet : ℕ
pong_packet = 2

abbrev pub findnode_packet : ℕ
findnode_packet = 3

abbrev pub neighbors_packet : ℕ
neighbors_packet = 4

-- `uint64(now.Add(n * time.Second).Unix())`
abbrev pub unix_after : ℕ → Time → ℕ
unix_after n now = u64 ((now + n * second) / second)

-- the seconds from the year 1 to 1970, which time.Unix adds, in 64 bits
abbrev pub unix_to_internal : ℕ
unix_to_internal = 62135596800

-- hasExpired: `time.Unix(int64(ts), 0).Before(time.Now())`
unfoldable pub has_expired_ts : ℕ → Time → Bool
has_expired_ts ts now =
    let sec = u64 (ts + unix_to_internal) in
    if ltb sec (2 ^ 63) then ltb (sec * second) (now + unix_to_internal * second) else true

-- the map of nodes: a read, and a write to a key that it holds or does not hold
unfoldable pub get_node : Bytes → List (Bytes × Peer) → Option Peer
get_node id [] = none
get_node id ((k, p) ∷ rest) =
    let later = get_node id rest in if bytes_eq k id then some p else later

unfoldable pub put_node : Bytes → Peer → List (Bytes × Peer) → List (Bytes × Peer)
put_node id q [] = (id, q) ∷ []
put_node id q ((k, p) ∷ rest) =
    let later = put_node id q rest in if bytes_eq k id then (k, q) ∷ rest else (k, p) ∷ later

-- getPeer
unfoldable pub get_peer : Bytes → Backend → Option Peer
get_peer id b = get_node id b.nodes

-- Backend.hasExpired
unfoldable pub has_expired : Peer → Backend → Bool
unfolding peer_has_expired
has_expired p b = elim p.last [
  | none ↦ true
  | some received ↦ elim (get_node p.id b.nodes) [
    | none ↦ true
    | some known ↦ peer_has_expired known received bond_expiration
  ]
]

-- getCallback
unfoldable pub get_callback : Bytes → ℕ → List Handler → Option ℕ
get_callback id code [] = none
get_callback id code (h ∷ hs) =
    let later = get_callback id code hs in
    if bytes_eq h.id id && h.code == code then some h.ack_ch else later

-- `delete(b.handlers, key)`
unfoldable pub delete_handler : Bytes → ℕ → List Handler → List Handler
delete_handler id code [] = []
delete_handler id code (h ∷ hs) =
    let rest = delete_handler id code hs in
    if bytes_eq h.id id && h.code == code then rest else h ∷ rest

-- a send to a channel of responses
unfoldable pub ack : ℕ → RespMessage → Backend → Backend
ack ch resp b = record b { acks = b.acks ++ (ch, resp) ∷ [] }

-- setHandler, and the function that it gives to time.AfterFunc
unfoldable pub set_handler : Bytes → ℕ → ℕ → Backend → Backend
set_handler id code ch b = record b {
  handlers = record { id = id; code = code; ack_ch = ch } ∷ delete_handler id code b.handlers;
}

unfoldable pub handler_timeout : Bytes → ℕ → ℕ → Backend → Backend
handler_timeout id code ch b =
    ack ch (record { complete = false; payload = []; timestamp = none })
      (record b { handlers = delete_handler id code b.handlers })

-- sendTask, to a channel of 100 peers
unfoldable pub send_task : Peer → Backend → Backend
send_task p b = if ltb (length b.tasks) 100 then record b { tasks = b.tasks ++ p ∷ [] } else b

-- the send to a channel of 10 events, in probeNode
unfoldable pub send_event : Bytes → Backend → Backend
send_event e b =
    if ltb (length b.event_ch) 10 then record b { event_ch = b.event_ch ++ e ∷ [] } else b

-- how updatePeer changes a peer that is known
unfoldable pub refresh : Peer → Peer → Peer
refresh p known = record known {
  tcp = p.tcp;
  last = elim p.last [ none ↦ known.last | some time ↦ some time ];
}

-- the loop of NearestPeersFromTarget
unfoldable pub known_peers : List Bytes → Backend → Result Failure (List Peer)
unfolding get_peer
known_peers [] b = ok []
known_peers (id ∷ ids) b = elim (get_peer id b) [
  | none ↦ err peer_not_found
  | some p ↦ (do ps ← known_peers ids b; ok (p ∷ ps))
]

module _ (w : Env) where
  abbrev pub hash : Bytes → Bytes
  hash = w.curve.keccak

  -- NewBackend, for the local peer of the key
  unfoldable pub new_backend : Peer → Backend
  new_backend local = record {
    local = local;
    table = new_routing_table hash bucket_size local.id;
    nodes = [];
    handlers = [];
    tasks = [];
    event_ch = [];
    active = false;
    sent = [];
    acks = [];
  }

  -- updatePeer; what the table returns is not looked at
  unfoldable pub update_peer : Peer → Backend → Result Panic Backend
  update_peer p b = elim (update hash p.id b.table) [
    | err why ↦ err (table why)
    | ok (t, _) ↦ ok (record b {
      table = t;
      nodes = elim (get_node p.id b.nodes) [
        | some known ↦ put_node p.id (refresh p known) b.nodes
        | none ↦ put_node p.id p b.nodes
      ];
    })
  ]

  -- sendPacket, of a message that is an RLP value
  unfoldable pub send_packet : Peer → ℕ → w.rlp.Value → Backend → Outcome
  send_packet to code v b = elim (encode_packet w.curve w.key code (w.rlp.marshal v)) [
    | err refused ↦ ok (b, some not_sent)
    | err CryptoError.panic ↦ err out_of_range
    | ok packet ↦ ok (
        if w.write_to packet to.udp_addr
        then (record b { sent = b.sent ++ record { addr = to.udp_addr; buf = packet } ∷ [] }, none)
        else (b, some not_sent))
  ]

  -- NearestPeersFromTarget
  unfoldable pub nearest_peers_from_target :
      Bytes → Backend → Result Panic (Result Failure (List Peer))
  nearest_peers_from_target target b =
      elim (nearest_peers hash (encode_to_hex target) bucket_size b.table) [
        | err why ↦ err (table why)
        | ok ids ↦ ok (known_peers ids b)
      ]

  -- probeNode up to the wait for the pong, and behind it; the first error is not looked at
  unfoldable pub probe_node_begin : Time → ℕ → Peer → Backend → Result Panic Backend
  probe_node_begin now ch p b = do
    let ping : PingRequest = record {
      version = 4;
      from = to_rpc_endpoint b.local;
      to = to_rpc_endpoint p;
      expiration = unix_after 10 now;
    }
    (b', _) ←
        send_packet p ping_packet (marshal_ping w.rlp ping) (set_handler p.id pong_packet ch b)
    ok b'

  unfoldable pub probe_node_end : RespMessage → Peer → Backend → Result Panic (Backend × Bool)
  probe_node_end resp p b =
      if resp.complete
      then (do
        let seen = record p { last = resp.timestamp }
        b' ← update_peer seen b
        ok (send_event (enode w.ip_string seen) b', true))
      else ok (b, false)
