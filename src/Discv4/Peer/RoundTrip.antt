-- ===== src/Discv4/Peer/RoundTrip.antt =====
-- newPeer, toRPCNode and toPeer of discovery/discv4.go on the identifiers that the program makes.
use go_devp2p.Prelude.{
  ℕ, ◌*◌, ◌<◌, ◌%◌, ◌≡◌, refl, ap, true, none, ◌++◌, Bytes, IsBytes, length, ◌==◌, if◌then◌else◌,
  ok, err, ◌∙◌, arith, Result, Bool-cases, Result-cases, ok_inj, inl, inr, sym,
}
use go_devp2p.Discv4.Hex.{encode_to_hex, encode_to_string, trim_hex_prefix, decode_hex, hex_prefix}
use go_devp2p.Discv4.Hex.RoundTrip.{
  trim_hex_prefix-encode_to_hex, decode_hex-encode_to_hex, length-encode_to_string,
}
use go_devp2p.Discv4.Peer.{
  UdpAddr, Peer, id_length, PeerError, id_text, new_peer, to_rpc_node, to_peer,
}

-- The peer that stands for a key of 64 bytes.
abbrev pub peer_of : Bytes → UdpAddr → ℕ → Peer
peer_of b addr tcp = record {
  id = encode_to_string b;
  bytes = b;
  udp_addr = addr;
  last = none;
  tcp = tcp;
}

-- newPeer behind the removal of the prefix
from_text : Bytes → UdpAddr → ℕ → Result PeerError Peer
from_text id addr tcp =
    if length id == 128
    then (elim (decode_hex (hex_prefix ++ id)) [
      | ok bytes ↦ ok (record { id = id; bytes = bytes; udp_addr = addr; last = none; tcp = tcp })
      | err why ↦ err (id_text why)
    ])
    else err (id_length (length id))

from_text-encode_to_string :
    (b : Bytes) (addr : UdpAddr) (tcp : ℕ)
    → IsBytes b
    → from_text (encode_to_string b) addr tcp
      ≡ (if length b == 64 then ok (peer_of b addr tcp) else err (id_length (2 * length b)))
unfolding from_text encode_to_hex
from_text-encode_to_string b addr tcp h =
    let size : (2 * length b == 128) ≡ (length b == 64) = ground arith in
    rw (length-encode_to_string b, decode_hex-encode_to_hex b h, size) refl

from_text-addr :
    (id : Bytes) (addr : UdpAddr) (tcp : ℕ) (p : Peer)
    → from_text id addr tcp ≡ ok p
    → p.udp_addr ≡ addr
unfolding from_text
from_text-addr id addr tcp p e = elim (Bool-cases (length id == 128)) [
  | inr f ↦ absurd (cc)
  | inl f ↦ elim (Result-cases (decode_hex (hex_prefix ++ id))) [
    | inl (bytes, g) ↦
        let q : Peer = record { id = id; bytes = bytes; udp_addr = addr; last = none; tcp = tcp } in
        let made : from_text id addr tcp ≡ ok q = rw (f, g) refl in
        ap (λ (x : Peer). x.udp_addr) (ok_inj (sym e ∙ made))
    | inr (why, g) ↦ absurd (cc)
  ]
]

-- newPeer on the hexadecimal text of any bytes: 64 bytes make the peer, and any other number is
-- refused with the length of the text.
pub new_peer-encode_to_hex :
    (b : Bytes) (addr : UdpAddr) (tcp : ℕ)
    → IsBytes b
    → new_peer (encode_to_hex b) addr tcp
      ≡ (if length b == 64 then ok (peer_of b addr tcp) else err (id_length (2 * length b)))
unfolding new_peer from_text
new_peer-encode_to_hex b addr tcp h =
    ap (λ id. from_text id addr tcp) (trim_hex_prefix-encode_to_hex b)
    ∙ from_text-encode_to_string b addr tcp h

-- A node, with a key of 64 bytes and a port of 16 bits, that is sent to another one, by toRPCNode,
-- arrives there, by toPeer, as the same peer, but with no TCP port and no time of a ping.
pub to_peer-to_rpc_node :
    (p : Peer)
    → IsBytes p.bytes
    → length p.bytes ≡ 64
    → p.udp_addr.port < 65536
    → to_peer (to_rpc_node p) ≡ ok (peer_of p.bytes p.udp_addr 0)
unfolding to_peer to_rpc_node
to_peer-to_rpc_node p h size small =
    let port : p.udp_addr.port % 65536 ≡ p.udp_addr.port = omega arith in
    let test : (length p.bytes == 64) ≡ true = ground arith in
    rw port (new_peer-encode_to_hex p.bytes p.udp_addr 0 h ∙ rw test refl)

-- newPeer keeps the address.
pub new_peer-addr :
    (text : Bytes) (addr : UdpAddr) (tcp : ℕ) (p : Peer)
    → new_peer text addr tcp ≡ ok p
    → p.udp_addr ≡ addr
unfolding new_peer from_text
new_peer-addr text addr tcp p e = from_text-addr (trim_hex_prefix text) addr tcp p e
