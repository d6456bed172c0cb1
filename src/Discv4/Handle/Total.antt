-- ===== src/Discv4/Handle/Total.antt =====
-- HandlePacket of discovery/discv4.go on every packet: how it ends, and what it leaves.
use go_devp2p.Prelude.{
  ℕ, ◌<◌, ◌≡◌, refl, ap, ◌⊎◌, inl, inr, true, Option, none, some, List, [], ◌∷◌, ◌++◌, map, Bytes,
  length, length-drop, drop, take, bytes_eq, ◌==◌, if◌then◌else◌, ok, err, Result-cases,
  Option-cases, Bool-cases, ltb, ltb→le, arith, ◌>>=◌,
}
use go_devp2p.Crypto.{recover_pubkey}
use go_devp2p.Crypto.Recover.{Laws}
use go_devp2p.Rlp.{CodecError, parsed}
use go_devp2p.Discv4.Hex.{encode_to_hex}
use go_devp2p.Discv4.Messages.{unmarshal_ping, unmarshal_find_node, marshal_pong, marshal_neighbors}
use go_devp2p.Discv4.Peer.{Time, Peer, to_rpc_node, to_rpc_endpoint, new_peer}
use go_devp2p.Discv4.Packet.{PacketError, too_short, mac_mismatch, bad_signature, decode_packet}
use go_devp2p.Discv4.Backend.{
  Env, RespMessage, Datagram, Backend, Failure, undecodable, Outcome, expired, not_sent, unexpected,
  unknown_code, bad_packet, not_udp, bad_peer_id, pong_packet, neighbors_packet, unix_after,
  has_expired_ts, has_expired, get_callback, ack, send_task, update_peer,
}
use go_devp2p.Discv4.Backend.Nodes.{IsValid, update_peer-UpdatesPeer, nearest_peers_from_target_lem}
use go_devp2p.Discv4.Backend.Send.{sending, send_packet_cases}
use go_devp2p.Discv4.Handle.{
  Packet, chunks, handle_ping, send_neighbors, handle_find_node, handle_code, handle_message,
  handle_packet,
}

-- Only the table and the nodes make a backend valid.
pub same-IsValid :
    (w : Env) (b b' : Backend)
    → b'.table ≡ b.table
    → b'.nodes ≡ b.nodes
    → IsValid w b
    → IsValid w b'
same-IsValid w b b' t n v = record {
  wf = rw t v.wf;
  room = rw t v.room;
  backed = rw (t, n) v.backed;
  named = rw n v.named;
}

send_task-IsValid : (w : Env) (p : Peer) (b : Backend) → IsValid w b → IsValid w (send_task p b)
unfolding send_task
send_task-IsValid w p b v = elim (Bool-cases (ltb (length b.tasks) 100)) [
  | inl e ↦ rw e (same-IsValid w b (record b { tasks = b.tasks ++ p ∷ [] }) refl refl v)
  | inr e ↦ rw e v
]

nonempty : (xs : Bytes) → 0 < length xs → (x : ℕ) × (rest : Bytes) × (xs ≡ x ∷ rest)
nonempty [] h = absurd (omega arith)
nonempty (x ∷ xs) h = (x, xs, refl)

-- A handler returns and leaves a valid backend, or it panics on a message it cannot decode.
abbrev pub Handled : Env → Outcome → Type 0
Handled w m =
    ((b' : Backend) × (f : Option Failure) × (m ≡ ok (b', f)) × IsValid w b')
    ⊎ ((why : CodecError) × (m ≡ err (undecodable why)))

module _ (w : Env) (l : Laws w.curve) where
  ping_answered :
      (peer : Peer) (b : Backend)
      → IsValid w b
      → Handled w (
          if has_expired peer b
          then ok (send_task peer b, none)
          else (update_peer w peer b >>= λ b''. ok (b'', none)))
  ping_answered peer b v = elim (Bool-cases (has_expired peer b)) [
    | inl e ↦ rw e (inl (send_task peer b, none, refl, send_task-IsValid w peer b v))
    | inr e ↦
        let (b', u, x) = update_peer-UpdatesPeer w l peer b v in
        rw (e, u) (inl (b', none, refl, x.valid))
  ]

  handle_ping-Handled :
      (now : Time) (payload mac : Bytes) (peer : Peer) (b : Backend)
      → IsValid w b
      → Handled w (handle_ping w now payload mac peer b)
  unfolding handle_ping
  handle_ping-Handled now payload mac peer b v =
      elim (Result-cases (parsed w.rlp payload >>= unmarshal_ping w.rlp)) [
        | inr (why, f) ↦ inr (why, rw f refl)
        | inl (req, f) ↦ elim (Bool-cases (has_expired_ts req.expiration now)) [
          | inl g ↦ inl (b, some expired, rw (f, g) refl, v)
          | inr g ↦
              let reply = marshal_pong w.rlp (record {
                to = to_rpc_endpoint peer;
                reply_tok = mac;
                expiration = unix_after 20 now;
              }) in
              elim (send_packet_cases w l peer pong_packet reply b) [
                | inl s ↦ rw (f, g, s) (ping_answered peer b v)
                | inr (packet, _, s) ↦
                    rw (f, g, s)
                      (ping_answered peer
                        (sending (record { addr = peer.udp_addr; buf = packet }) b)
                        (same-IsValid w b
                          (sending (record { addr = peer.udp_addr; buf = packet }) b) refl refl v))
              ]
        ]
      ]

  send_neighbors-Handled :
      (peer : Peer) (slices : List (List Peer)) (b : Backend)
      → IsValid w b
      → Handled w (send_neighbors w peer slices b)
  unfolding send_neighbors
  send_neighbors-Handled peer [] b v = inl (b, none, refl, v)
  send_neighbors-Handled peer (ps ∷ rest) b v =
      let reply = marshal_neighbors w.rlp (record { nodes = map to_rpc_node ps; expiration = 0 }) in
      elim (send_packet_cases w l peer neighbors_packet reply b) [
        | inl s ↦ inl (b, some not_sent, rw (send_neighbors, s) refl, v)
        | inr (packet, _, s) ↦
            let d : Datagram = record { addr = peer.udp_addr; buf = packet } in
            rw (send_neighbors, s)
              (send_neighbors-Handled peer rest (sending d b)
                (same-IsValid w b (sending d b) refl refl v))
      ]

  handle_find_node-Handled :
      (payload : Bytes) (peer : Peer) (b : Backend)
      → IsValid w b
      → Handled w (handle_find_node w payload peer b)
  unfolding handle_find_node
  handle_find_node-Handled payload peer b v = elim (Bool-cases (has_expired peer b)) [
    | inl g ↦ inl (b, none, rw g refl, v)
    | inr g ↦ elim (Result-cases (parsed w.rlp payload >>= unmarshal_find_node w.rlp)) [
      | inr (why, f) ↦ inr (why, rw (g, f) refl)
      | inl (req, f) ↦
          let (ps, found, few, known, near) = nearest_peers_from_target_lem w l b v req.target in
          rw (g, f, found) (send_neighbors-Handled peer (chunks (length ps) ps) b v)
    ]
  ]

  handle_code-Handled :
      (now : Time) (code : ℕ) (payload mac : Bytes) (peer : Peer) (b : Backend)
      → IsValid w b
      → Handled w (handle_code w now code payload mac peer b)
  unfolding handle_code
  handle_code-Handled now code payload mac peer b v = elim (Bool-cases (code == 1)) [
    | inl e ↦ rw e (handle_ping-Handled now payload mac peer b v)
    | inr e ↦ elim (Bool-cases (code == 3)) [
      | inl f ↦ rw (e, f) (handle_find_node-Handled payload peer b v)
      | inr f ↦ elim (Bool-cases (code == 4)) [
        | inl g ↦ inl (b, some unexpected, rw (e, f, g) refl, v)
        | inr g ↦ elim (Bool-cases (code == 2)) [
          | inl h ↦ inl (b, some unexpected, rw (e, f, g, h) refl, v)
          | inr h ↦ inl (b, some unknown_code, rw (e, f, g, h) refl, v)
        ]
      ]
    ]
  ]

  handle_message-Handled :
      (now : Time) (packet : Packet) (code : ℕ) (payload mac : Bytes) (peer : Peer) (b : Backend)
      → IsValid w b
      → Handled w (handle_message w now packet code payload mac peer b)
  unfolding handle_message ack
  handle_message-Handled now packet code payload mac peer b v =
      elim (Option-cases (get_callback peer.id code b.handlers)) [
        | inl e ↦ rw (handle_message, e) (handle_code-Handled now code payload mac peer b v)
        | inr (ch, e) ↦
            let resp : RespMessage = record {
              complete = true;
              payload = payload;
              timestamp = some packet.timestamp;
            } in
            let b' = ack ch resp b in
            let v' = same-IsValid w b b' refl refl v in
            elim (Bool-cases (code == 1)) [
              | inl f ↦
                  rw (handle_message, e, f) (handle_code-Handled now code payload mac peer b' v')
              | inr f ↦ inl (b', none, rw (handle_message, e, f) refl, v')
            ]
      ]

  -- decodePacket returns an error, or parts of the packet, its data not empty, and a marshalled key.
  pub decode_packet_cases :
      (buf : Bytes)
      → ((why : PacketError) × (decode_packet w.curve buf ≡ err why))
        ⊎ ((code : ℕ) × (payload : Bytes) × (key : w.curve.PublicKey) × (decode_packet w.curve buf
              ≡ ok (take 32 buf, code ∷ payload, w.curve.marshal key)))
  unfolding decode_packet
  decode_packet_cases buf = elim (Bool-cases (ltb (length buf) 98)) [
    | inl short ↦ inl (too_short, rw short refl)
    | inr long ↦ elim (Bool-cases (bytes_eq (take 32 buf) (w.curve.keccak (drop 32 buf)))) [
      | inr apart ↦ inl (mac_mismatch, rw (long, apart) refl)
      | inl same ↦
          elim (Result-cases
            (recover_pubkey w.curve (take 65 (drop 32 buf)) (w.curve.keccak (drop 97 buf)))) [
              | inr (why, f) ↦ inl (bad_signature why, rw (long, same, f) refl)
              | inl (key, f) ↦
                  let (code, payload, body) =
                    nonempty (drop 97 buf)
                      (omega (arith, length-drop 97 buf, ltb→le (length buf) 98 long)) in
                  inr (
                    code,
                    payload,
                    key,
                    rw (long, same, f) (ap (λ d. ok (take 32 buf, d, w.curve.marshal key)) body),
                  )
            ]
    ]
  ]

  -- On a valid backend HandlePacket, of any packet, returns, with an error or not, and leaves a
  -- valid backend, in which every peer of the well-formed table is a known node, or panics on a
  -- message that cannot be decoded; it panics in no other way. The primitives have their laws.
  pub handle_packet-Handled :
      (now : Time) (packet : Packet) (b : Backend)
      → IsValid w b
      → Handled w (handle_packet w now packet b)
  unfolding handle_packet
  handle_packet-Handled now packet b v = elim (decode_packet_cases packet.buf) [
    | inl (why, e) ↦ inl (b, some bad_packet, rw (handle_packet, e) refl, v)
    | inr (code, payload, key, e) ↦ elim (Option-cases packet.from) [
      | inl f ↦ inl (b, some not_udp, rw (handle_packet, e, f) refl, v)
      | inr (addr, f) ↦
          let (first, rest, marshalled) =
            nonempty (w.curve.marshal key) (omega (arith, l.marshal_size key)) in
          elim (Result-cases (new_peer (encode_to_hex rest) addr 0)) [
            | inr (why, g) ↦
                inl (b, some bad_peer_id, rw (handle_packet, e, f, marshalled, g) refl, v)
            | inl (peer, g) ↦
                rw (handle_packet, e, f, marshalled, g)
                  (handle_message-Handled now packet code payload (take 32 packet.buf)
                    (record peer { last = some packet.timestamp }) b v)
          ]
    ]
  ]
