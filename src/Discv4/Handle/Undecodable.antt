-- ===== src/Discv4/Handle/Undecodable.antt =====
-- A signed ping with a message that cannot be decoded, in discovery/discv4.go.
use go_devp2p.Prelude.{
  ℕ, ◌≡◌, ◌<◌, ◌∙◌, ap, refl, inl, inr, true, Option-cases, some, List, [], ◌∷◌, Bytes, IsBytes,
  length, take, lt→ltb, ok, err, ◌>>=◌, arith,
}
use go_devp2p.Crypto.{Curve, sign}
use go_devp2p.Crypto.Recover.{Laws}
use go_devp2p.Rlp.{Rlp, CodecError, bad, parsed}
use go_devp2p.Discv4.Hex.{encode_to_hex}
use go_devp2p.Discv4.Messages.{unmarshal_ping}
use go_devp2p.Discv4.Peer.{UdpAddr, Time, Peer, new_peer}
use go_devp2p.Discv4.Peer.RoundTrip.{peer_of, new_peer-encode_to_hex}
use go_devp2p.Discv4.Packet.{decode_packet, encode_packet}
use go_devp2p.Discv4.Packet.RoundTrip.{decode_packet-encode_packet}
use go_devp2p.Discv4.Backend.{
  Env, RespMessage, Backend, undecodable, ping_packet, get_callback, ack,
}
use go_devp2p.Discv4.Handle.{Packet, handle_ping, handle_code, handle_message, handle_packet}
use go_devp2p.Discv4.Handle.Bond.{handle_packet-message, seen}

module _ (w : Env) (packet : Packet) (mac payload key : Bytes) (first : ℕ) (addr : UdpAddr)
    (peer : Peer)
    (signed : decode_packet w.curve packet.buf ≡ ok (mac, ping_packet ∷ payload, first ∷ key))
    (udp : packet.from ≡ some addr) (sender : new_peer (encode_to_hex key) addr 0 ≡ ok peer) where
  handle_code-undecodable :
      (now : Time) (b : Backend) (q : Peer) (why : CodecError)
      → (parsed w.rlp payload >>= unmarshal_ping w.rlp) ≡ err why
      → handle_code w now ping_packet payload mac q b ≡ err (undecodable why)
  unfolding handle_code handle_ping
  handle_code-undecodable now b q why f = rw (handle_ping, f) refl

  handle_packet-undecodable :
      (now : Time) (b : Backend) (why : CodecError)
      → (parsed w.rlp payload >>= unmarshal_ping w.rlp) ≡ err why
      → handle_packet w now packet b ≡ err (undecodable why)
  unfolding handle_message ack
  handle_packet-undecodable now b why f =
      let q = seen w packet mac payload key ping_packet first addr peer signed udp sender in
      handle_packet-message w packet mac payload key ping_packet first addr peer signed udp sender
        now b
      ∙ elim (Option-cases (get_callback q.id ping_packet b.handlers)) [
        | inl e ↦ rw (handle_message, e) (handle_code-undecodable now b q why f)
        | inr (ch, e) ↦
            let resp : RespMessage = record {
              complete = true;
              payload = payload;
              timestamp = some packet.timestamp;
            } in
            rw (handle_message, e) (handle_code-undecodable now (ack ch resp b) q why f)
      ]

-- A marshalled key is one byte and the bytes of the identifier.
marshalled :
    (c : Curve)
    → Laws c
    → (p : c.PublicKey)
    → (first : ℕ) × (key : Bytes) × (c.marshal p ≡ first ∷ key) × (length key ≡ 64) × IsBytes key
marshalled c l p = split_key (c.marshal p) (l.marshal_size p) (l.marshal_IsBytes p)
  where
    split_key :
        (b : Bytes)
        → length b ≡ 65
        → IsBytes b
        → (first : ℕ) × (key : Bytes) × (b ≡ first ∷ key) × (length key ≡ 64) × IsBytes key
    split_key [] n h = absurd (omega (arith, n))
    split_key (x ∷ key) n h = (x, key, refl, omega (arith, n), h.1)

-- the message that is an array of these values
abbrev pub array_payload : (r : Rlp) → List (r.Value) → Bytes
array_payload r vs = r.marshal (r.new_array vs)

-- An array of fewer than four elements is no ping.
unmarshal_ping-short :
    (r : Rlp) (vs : List (r.Value))
    → length vs < 4
    → (parsed r (array_payload r vs) >>= unmarshal_ping r) ≡ err bad
unfolding unmarshal_ping
unmarshal_ping-short r vs few =
    rw
      (
        r.parse_of_marshal (r.new_array vs),
        unmarshal_ping,
        r.elems_of_array vs,
        lt→ltb (length vs) 4 few,
      )
      refl

-- Where the primitives have their laws: anybody with a key that can sign makes, by encodePacket, a
-- packet with the code of a ping and an array of fewer than four elements, for which HandlePacket
-- panics, at every time, in every state of the backend and from whatever UDP address it comes.
pub handle_packet-encode_packet :
    (w : Env)
    → Laws w.curve
    → (k : w.curve.PrivateKey) (vs : List (w.rlp.Value)) (sig : Bytes) (addr : UdpAddr)
    → length vs < 4
    → sign w.curve k (w.curve.keccak (ping_packet ∷ array_payload w.rlp vs)) ≡ ok sig
    → (buf : Bytes) × (encode_packet w.curve k ping_packet (array_payload w.rlp vs) ≡ ok buf)
      × ((now received : Time) (b : Backend)
          → handle_packet w now (record { buf = buf; from = some addr; timestamp = received }) b
            ≡ err (undecodable bad))
handle_packet-encode_packet w l k vs sig addr few made =
    let payload = array_payload w.rlp vs in
    let (buf, e, d) = decode_packet-encode_packet w.curve l k ping_packet payload sig made in
    let (first, key, m, n, bytes) = marshalled w.curve l (w.curve.public_key k) in
    let signed : decode_packet w.curve buf ≡ ok (take 32 buf, ping_packet ∷ payload, first ∷ key) =
      d ∙ ap (λ x. ok (take 32 buf, ping_packet ∷ payload, x)) m in
    let sender : new_peer (encode_to_hex key) addr 0 ≡ ok (peer_of key addr 0) =
      new_peer-encode_to_hex key addr 0 bytes ∙ rw n refl in
    (
      buf,
      e,
      λ now received b.
          handle_packet-undecodable w (record { buf = buf; from = some addr; timestamp = received })
            (take 32 buf) payload key first addr (peer_of key addr 0) signed refl sender now b bad
            (unmarshal_ping-short w.rlp vs few),
    )
