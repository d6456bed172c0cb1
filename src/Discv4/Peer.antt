-- ===== src/Discv4/Peer.antt =====
-- Peer of discovery/discv4.go. A UDP address is its IP and its port; a time is in nanoseconds since
-- 1970, and the text of an IP address is a parameter, for package net.
pub mod RoundTrip
use go_devp2p.Prelude.{
  ℕ, zero, suc, ◌+◌, ◌-◌, ◌*◌, ◌/◌, ◌%◌, Bool, true, false, Option, none, some, List, [], ◌∷◌, ◌++◌,
  Bytes, codes, u16, length, ltb, ◌==◌, if◌then◌else◌, Result, ok, err,
}
use go_devp2p.Discv4.Hex.{
  HexError, encode_to_hex, trim_hex_prefix, decode_hex, hex_prefix, remove_hex_prefixes,
}
use go_devp2p.Discv4.Messages.{RpcNode, RpcEndpoint}

pub record UdpAddr : Type 0 where
  pub ip : Bytes
  pub port : ℕ

abbrev pub Time : Type 0
Time = ℕ

pub record Peer : Type 0 where
  pub id : Bytes
  pub bytes : Bytes
  pub udp_addr : UdpAddr
  pub last : Option Time
  pub tcp : ℕ

pub data PeerError : Type 0 where
  id_length : ℕ → PeerError
  id_text : HexError → PeerError

-- newPeer
unfoldable pub new_peer : Bytes → UdpAddr → ℕ → Result PeerError Peer
new_peer text addr tcp =
    let id = trim_hex_prefix text in
    if length id == 128
    then (elim (decode_hex (hex_prefix ++ id)) [
      | ok bytes ↦ ok (record { id = id; bytes = bytes; udp_addr = addr; last = none; tcp = tcp })
      | err why ↦ err (id_text why)
    ])
    else err (id_length (length id))

-- Peer.hasExpired
unfoldable pub peer_has_expired : Peer → Time → ℕ → Bool
peer_has_expired p now expiration = elim p.last [
  | none ↦ true
  | some last ↦ ltb (last + expiration) now
]

-- Peer.toRPCNode and Peer.toRPCEndpoint
unfoldable pub to_rpc_node : Peer → RpcNode
to_rpc_node p = record { ip = p.udp_addr.ip; udp = u16 p.udp_addr.port; tcp = 0; id = p.bytes }

unfoldable pub to_rpc_endpoint : Peer → RpcEndpoint
to_rpc_endpoint p = record { ip = p.udp_addr.ip; udp = u16 p.udp_addr.port; tcp = p.tcp }

-- rpcNode.toPeer
unfoldable pub to_peer : RpcNode → Result PeerError Peer
to_peer r = new_peer (encode_to_hex r.id) (record { ip = r.ip; port = r.udp }) r.tcp

-- the verb %d of package fmt, for a number of at most `rounds` + 1 digits
unfoldable pub decimal : ℕ → ℕ → Bytes
decimal zero n = (48 + n % 10) ∷ []
decimal (suc rounds) n =
    let front = decimal rounds (n / 10) in
    if ltb n 10 then (48 + n) ∷ [] else front ++ (48 + n % 10) ∷ []

-- Peer.Enode
unfoldable pub enode : (Bytes → Bytes) → Peer → Bytes
enode ip_string p =
    codes "enode://"
    ++ remove_hex_prefixes (encode_to_hex p.bytes)
    ++ codes "@"
    ++ ip_string p.udp_addr.ip
    ++ codes ":"
    ++ decimal 4 p.tcp
