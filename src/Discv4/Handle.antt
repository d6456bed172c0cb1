-- ===== src/Discv4/Handle.antt =====
-- The packet handlers of discovery/discv4.go.
pub mod Total
pub mod Bond
pub mod Neighbors
pub mod Undecodable
use go_devp2p.Prelude.{
  ℕ, zero, suc, ◌+◌, Bool, true, false, Option, none, some, List, [], ◌∷◌, ◌++◌, map, Bytes, length,
  take, drop, ◌==◌, if◌then◌else◌, Result, ok, err, ◌>>=◌,
}
use go_devp2p.Rlp.{CodecError, Decoded, parsed}
use go_devp2p.Discv4.Hex.{encode_to_hex}
use go_devp2p.Discv4.Messages.{
  PingRequest, PongResponse, FindNodeRequest, NeighborsResponse, unmarshal_ping,
  unmarshal_find_node, marshal_pong, marshal_neighbors,
}
use go_devp2p.Discv4.Peer.{UdpAddr, Time, Peer, new_peer, to_rpc_node, to_rpc_endpoint}
use go_devp2p.Discv4.Packet.{decode_packet}
use go_devp2p.Discv4.Backend.{
  Env, RespMessage, Backend, Failure, bad_packet, not_udp, bad_peer_id, expired, unexpected,
  unknown_code, Panic, undecodable, out_of_range, Outcome, ping_packet, pong_packet,
  findnode_packet, neighbors_packet, unix_after, has_expired_ts, has_expired, get_callback, ack,
  send_task, update_peer, send_packet, nearest_peers_from_target,
}

-- Packet of discovery/transport.go; a sender that is no UDP address is `none`
pub record Packet : Type 0 where
  pub buf : Bytes
  pub from : Option UdpAddr
  pub timestamp : Time

abbrev pub max_neighbors : ℕ
max_neighbors = 6

-- the slices of the loop of handleFindNodePacket; a round for each peer is enough
unfoldable pub chunks : ℕ → List Peer → List (List Peer)
chunks zero ps = []
chunks (suc n) [] = []
chunks (suc n) (p ∷ ps) = take max_neighbors (p ∷ ps) ∷ chunks n (drop max_neighbors (p ∷ ps))

-- panic(err) where a message cannot be decoded
abbrev pub decoded {ℓ} : {A : Type ℓ} → Decoded A → Result Panic A
decoded (ok x) = ok x
decoded (err why) = err (undecodable why)

module _ (w : Env) where
  -- handlePingPacket; an error of the send of the pong is not looked at
  unfoldable pub handle_ping : Time → Bytes → Bytes → Peer → Backend → Outcome
  handle_ping now payload mac peer b = do
    req ← decoded (parsed w.rlp payload >>= unmarshal_ping w.rlp)
    let reply : PongResponse = record {
      to = to_rpc_endpoint peer;
      reply_tok = mac;
      expiration = unix_after 20 now;
    }
    if has_expired_ts req.expiration now then ok (b, some expired) else (do
      (b', _) ← send_packet w peer pong_packet (marshal_pong w.rlp reply) b
      if has_expired peer b'
          then ok (send_task peer b', none)
          else (do b'' ← update_peer w peer b'; ok (b'', none)))

  -- the loop of handleFindNodePacket, over its slices; the expiration is left at 0
  unfoldable pub send_neighbors : Peer → List (List Peer) → Backend → Outcome
  send_neighbors peer [] b = ok (b, none)
  send_neighbors peer (ps ∷ rest) b =
      let reply : NeighborsResponse = record { nodes = map to_rpc_node ps; expiration = 0 } in
      elim (send_packet w peer neighbors_packet (marshal_neighbors w.rlp reply) b) [
        | err why ↦ err why
        | ok (b', some why) ↦ ok (b', some why)
        | ok (b', none) ↦ send_neighbors peer rest b'
      ]

  -- handleFindNodePacket
  unfoldable pub handle_find_node : Bytes → Peer → Backend → Outcome
  handle_find_node payload peer b = if has_expired peer b then ok (b, none) else (do
    req ← decoded (parsed w.rlp payload >>= unmarshal_find_node w.rlp)
    found ← nearest_peers_from_target w req.target b
    elim found [
      | err why ↦ ok (b, some why)
      | ok ps ↦ send_neighbors peer (chunks (length ps) ps) b
    ])

  -- the switch of HandlePacket
  unfoldable pub handle_code : Time → ℕ → Bytes → Bytes → Peer → Backend → Outcome
  handle_code now code payload mac peer b =
      if code == ping_packet
      then handle_ping now payload mac peer b
      else if code == findnode_packet
      then handle_find_node payload peer b
      else if code == neighbors_packet
      then ok (b, some unexpected)
      else if code == pong_packet
      then ok (b, some unexpected)
      else ok (b, some unknown_code)

  -- HandlePacket from the lookup of a callback on
  unfoldable pub handle_message : Time → Packet → ℕ → Bytes → Bytes → Peer → Backend → Outcome
  handle_message now packet code payload mac peer b = elim (get_callback peer.id code b.handlers) [
    | none ↦ handle_code now code payload mac peer b
    | some ch ↦
        let resp : RespMessage = record {
          complete = true;
          payload = payload;
          timestamp = some packet.timestamp;
        } in
        let b' = ack ch resp b in
        if code == ping_packet then handle_code now code payload mac peer b' else ok (b', none)
  ]

  -- HandlePacket; an empty key or empty data would be sliced out of range
  unfoldable pub handle_packet : Time → Packet → Backend → Outcome
  handle_packet now packet b = elim (decode_packet w.curve packet.buf) [
    | err _ ↦ ok (b, some bad_packet)
    | ok (mac, sigdata, pubkey) ↦ elim packet.from [
      | none ↦ ok (b, some not_udp)
      | some addr ↦ elim pubkey [
        | [] ↦ err out_of_range
        | _ ∷ key ↦ elim (new_peer (encode_to_hex key) addr 0) [
          | err _ ↦ ok (b, some bad_peer_id)
          | ok peer ↦ elim sigdata [
            | [] ↦ err out_of_range
            | code ∷ payload ↦
                handle_message now packet code payload mac
                  (record peer { last = some packet.timestamp }) b
          ]
        ]
      ]
    ]
  ]
