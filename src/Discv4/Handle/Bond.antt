-- ===== src/Discv4/Handle/Bond.antt =====
-- Packets of a peer that has no bond, and how a probe makes one, in discovery/discv4.go.
use go_devp2p.Prelude.{
  ℕ, ◌+◌, ◌≡◌, refl, sym, ◌∙◌, ◌⊎◌, inl, inr, true, Option, none, some, [], ◌∷◌, ◌++◌, Bytes,
  bytes_eq_refl, length, ltb, ◌==◌, ==_iff, if◌then◌else◌, ok, err, Result-cases, Option-cases,
  Bool-cases, ◌>>=◌,
}
use go_devp2p.Crypto.Recover.{Laws}
use go_devp2p.Rlp.{parsed}
use go_devp2p.Discv4.Hex.{encode_to_hex}
use go_devp2p.Discv4.Messages.{unmarshal_ping, marshal_pong}
use go_devp2p.Discv4.Peer.{UdpAddr, Time, Peer, peer_has_expired, enode, to_rpc_endpoint, new_peer}
use go_devp2p.Discv4.Peer.RoundTrip.{new_peer-addr}
use go_devp2p.Discv4.Packet.{decode_packet}
use go_devp2p.Discv4.Backend.{
  Env, RespMessage, Datagram, Backend, Outcome, pong_packet, bond_expiration, unix_after,
  has_expired_ts, has_expired, get_node, refresh, send_event, get_callback, ack, send_task,
  probe_node_end, update_peer,
}
use go_devp2p.Discv4.Backend.Nodes.{IsValid, update_peer-UpdatesPeer, merged}
use go_devp2p.Discv4.Backend.Send.{send_packet_cases, sending}
use go_devp2p.Discv4.Handle.Total.{same-IsValid}
use go_devp2p.Discv4.Handle.{
  Packet, handle_ping, handle_find_node, handle_code, handle_message, handle_packet,
}

-- What an outcome may be: nodes and table as they were, and no datagram but one, for the address of
-- the sender, if the code is that of a ping.
abbrev pub IsQuiet : ℕ → UdpAddr → Backend → Outcome → Type 0
IsQuiet code addr b (err _) = Unit
IsQuiet code addr b (ok (b', _)) =
    (b'.nodes ≡ b.nodes)
    × (b'.table ≡ b.table)
    × ((b'.sent ≡ b.sent)
        ⊎ ((code ≡ 1) × (d : Datagram) × (b'.sent ≡ b.sent ++ d ∷ []) × (d.addr ≡ addr)))

module _ (w : Env) (l : Laws w.curve) (peer : Peer) where
  has_expired-sending :
      (d : Datagram) (b : Backend) → has_expired peer (sending d b) ≡ has_expired peer b
  unfolding has_expired
  has_expired-sending d b = refl

  has_expired-ack :
      (ch : ℕ) (resp : RespMessage) (b : Backend)
      → has_expired peer (ack ch resp b) ≡ has_expired peer b
  unfolding has_expired ack
  has_expired-ack ch resp b = refl

  queue_IsQuiet :
      (b b1 : Backend)
      → has_expired peer b1 ≡ true
      → IsQuiet 1 peer.udp_addr b (ok (b1, none))
      → IsQuiet 1 peer.udp_addr b (
          if has_expired peer b1
          then ok (send_task peer b1, none)
          else (update_peer w peer b1 >>= λ b''. ok (b'', none)))
  unfolding send_task
  queue_IsQuiet b b1 e q = elim (Bool-cases (ltb (length b1.tasks) 100)) [
    | inl r ↦ rw (e, send_task, r) q
    | inr r ↦ rw (e, send_task, r) q
  ]

  handle_ping-IsQuiet :
      (now : Time) (payload mac : Bytes) (b : Backend)
      → has_expired peer b ≡ true
      → IsQuiet 1 peer.udp_addr b (handle_ping w now payload mac peer b)
  unfolding handle_ping
  handle_ping-IsQuiet now payload mac b e =
      elim (Result-cases (parsed w.rlp payload >>= unmarshal_ping w.rlp)) [
        | inr (why, f) ↦ rw (handle_ping, f) tt
        | inl (req, f) ↦ elim (Bool-cases (has_expired_ts req.expiration now)) [
          | inl g ↦ rw (handle_ping, f, g) (refl, refl, inl refl)
          | inr g ↦
              let reply = marshal_pong w.rlp (record {
                to = to_rpc_endpoint peer;
                reply_tok = mac;
                expiration = unix_after 20 now;
              }) in
              elim (send_packet_cases w l peer pong_packet reply b) [
                | inl s ↦ rw (handle_ping, f, g, s) (queue_IsQuiet b b e (refl, refl, inl refl))
                | inr (packet, _, s) ↦
                    let d : Datagram = record { addr = peer.udp_addr; buf = packet } in
                    rw (handle_ping, f, g, s)
                      (queue_IsQuiet b (sending d b) (has_expired-sending d b ∙ e)
                        (refl, refl, inr (refl, d, refl, refl)))
              ]
        ]
      ]

  handle_code-IsQuiet :
      (now : Time) (code : ℕ) (payload mac : Bytes) (b : Backend)
      → has_expired peer b ≡ true
      → IsQuiet code peer.udp_addr b (handle_code w now code payload mac peer b)
  unfolding handle_code handle_find_node
  handle_code-IsQuiet now code payload mac b e = elim (Bool-cases (code == 1)) [
    | inl c ↦ rw ((==_iff code 1).0 c) (handle_ping-IsQuiet now payload mac b e)
    | inr c ↦ elim (Bool-cases (code == 3)) [
      | inl d ↦ rw (handle_code, c, d, handle_find_node, e) (refl, refl, inl refl)
      | inr d ↦ elim (Bool-cases (code == 4)) [
        | inl f ↦ rw (handle_code, c, d, f) (refl, refl, inl refl)
        | inr f ↦ elim (Bool-cases (code == 2)) [
          | inl g ↦ rw (handle_code, c, d, f, g) (refl, refl, inl refl)
          | inr g ↦ rw (handle_code, c, d, f, g) (refl, refl, inl refl)
        ]
      ]
    ]
  ]

  handle_message-IsQuiet :
      (now : Time) (packet : Packet) (code : ℕ) (payload mac : Bytes) (b : Backend)
      → has_expired peer b ≡ true
      → IsQuiet code peer.udp_addr b (handle_message w now packet code payload mac peer b)
  unfolding handle_message ack
  handle_message-IsQuiet now packet code payload mac b e =
      elim (Option-cases (get_callback peer.id code b.handlers)) [
        | inl f ↦ rw (handle_message, f) (handle_code-IsQuiet now code payload mac b e)
        | inr (ch, f) ↦
            let resp : RespMessage = record {
              complete = true;
              payload = payload;
              timestamp = some packet.timestamp;
            } in
            elim (Bool-cases (code == 1)) [
              | inl g ↦
                  rw (handle_message, f, g)
                    (handle_code-IsQuiet now code payload mac (ack ch resp b)
                      (has_expired-ack ch resp b ∙ e))
              | inr g ↦ rw (handle_message, f, g) (refl, refl, inl refl)
            ]
      ]

module _ (w : Env) (packet : Packet) (mac payload key : Bytes) (code first : ℕ) (addr : UdpAddr)
    (peer : Peer)
    (signed : decode_packet w.curve packet.buf ≡ ok (mac, code ∷ payload, first ∷ key))
    (udp : packet.from ≡ some addr) (sender : new_peer (encode_to_hex key) addr 0 ≡ ok peer) where
  -- The sender of a packet, at the time of the packet.
  abbrev pub seen : Peer
  seen = record peer { last = some packet.timestamp }

  pub handle_packet-message :
      (now : Time) (b : Backend)
      → handle_packet w now packet b ≡ handle_message w now packet code payload mac seen b
  unfolding handle_packet handle_message
  handle_packet-message now b = rw (handle_packet, signed, udp, sender) refl

  sender-addr : peer.udp_addr ≡ addr
  sender-addr = new_peer-addr (encode_to_hex key) addr 0 peer sender

  -- A signed packet of a peer that has no bond, for its node is not known or its last time is more
  -- than a day before the packet: if HandlePacket returns, the nodes and the table are as they
  -- were, and nothing was sent but, if the packet is a ping, at most one datagram, to the address
  -- that the packet came from. The primitives have their laws.
  pub handle_packet-IsQuiet :
      (now : Time) (b : Backend)
      → Laws w.curve
      → has_expired seen b ≡ true
      → IsQuiet code addr b (handle_packet w now packet b)
  handle_packet-IsQuiet now b l e =
      rw (handle_packet-message now b, sym sender-addr)
        (handle_message-IsQuiet w l seen now packet code payload mac b e)

-- A bond is as old as the time of the node.
pub has_expired-known :
    (q known : Peer) (b : Backend) (received time : Time)
    → q.last ≡ some received
    → get_node q.id b.nodes ≡ some known
    → known.last ≡ some time
    → has_expired q b ≡ ltb (time + bond_expiration) received
unfolding has_expired peer_has_expired
has_expired-known q known b received time now at last =
    rw (has_expired, now, at, peer_has_expired, last) refl

merged-last :
    (p : Peer) (known : Option Peer) (time : Time)
    → p.last ≡ some time
    → (merged p known).last ≡ some time
unfolding refresh
merged-last p none time h = h
merged-last p (some known) time h = rw h refl

send_event-same :
    (e : Bytes) (b : Backend)
    → ((send_event e b).nodes ≡ b.nodes) × ((send_event e b).table ≡ b.table)
unfolding send_event
send_event-same e b = elim (Bool-cases (ltb (length b.event_ch) 10)) [
  | inl r ↦ rw (send_event, r) (refl, refl)
  | inr r ↦ rw (send_event, r) (refl, refl)
]

-- The outcome of probeNode with a pong, and what it makes of packets of that peer.
module _ (w : Env) (l : Laws w.curve) (p : Peer) (b : Backend) (v : IsValid w b) (time : Time)
    (payload : Bytes) where
  abbrev pub pong : RespMessage
  pong = record { complete = true; payload = payload; timestamp = some time }

  -- On a valid backend a probe that is answered succeeds and leaves a valid backend; a packet of
  -- that peer then finds a bond exactly if its time is at most a day behind that of the pong. The
  -- primitives have their laws.
  pub probe_node_end-bonds :
      (b' : Backend) × (probe_node_end w pong p b ≡ ok (b', true))
      × IsValid w b'
      × ((q : Peer) (received : Time)
          → q.id ≡ p.id
          → q.last ≡ some received
          → has_expired q b' ≡ ltb (time + bond_expiration) received)
  unfolding probe_node_end
  probe_node_end-bonds =
      let probed : Peer = record p { last = some time } in
      let (b', e, u) = update_peer-UpdatesPeer w l probed b v in
      let event = enode w.ip_string probed in
      let after = send_event event b' in
      let (nodes, table) = send_event-same event b' in
      (
        after,
        rw (probe_node_end, e) refl,
        same-IsValid w b' after table nodes u.valid,
        λ q received same at.
            has_expired-known q (merged probed (get_node p.id b.nodes)) after received time at
              (rw (nodes, same) (u.stored p.id ∙ rw (bytes_eq_refl p.id) refl))
              (merged-last probed (get_node p.id b.nodes) time refl),
      )
