-- ===== src/Discv4/Handle/Neighbors.antt =====
-- The answer of handleFindNodePacket, in discovery/discv4.go, to a peer with a bond.
use go_devp2p.Prelude.{
  ℕ, zero, suc, ◌+◌, ◌*◌, ◌≤◌, ◌<◌, ◌≡◌, refl, ap, sym, ◌∙◌, true, false, none, some, List, [], ◌∷◌,
  ◌++◌, append_assoc, append-nil, map, Bytes, length, length-take, length-drop, take, drop,
  take-append-drop, ok, All, arith, ◌>>=◌,
}
use go_devp2p.Crypto.{sign}
use go_devp2p.Crypto.Recover.{Laws}
use go_devp2p.Rlp.{parsed}
use go_devp2p.Discv4.Messages.{
  FindNodeRequest, NeighborsResponse, unmarshal_find_node, marshal_neighbors, unmarshal_neighbors,
}
use go_devp2p.Discv4.Messages.RoundTrip.{NodeFits, unmarshal_neighbors-marshal_neighbors}
use go_devp2p.Discv4.Peer.{Peer, to_rpc_node}
use go_devp2p.Discv4.Packet.{decode_packet}
use go_devp2p.Discv4.Packet.RoundTrip.{decode_packet-encode_packet}
use go_devp2p.Discv4.Backend.{
  Env, Datagram, Backend, Outcome, neighbors_packet, has_expired, get_node, send_packet,
  nearest_peers_from_target,
}
use go_devp2p.Discv4.Backend.Nodes.{IsValid, nearest_peers_from_target_lem}
use go_devp2p.Discv4.Backend.Send.{sending}
use go_devp2p.Discv4.Handle.{chunks, send_neighbors, handle_find_node}

abbrev pub joined : List (List Peer) → List Peer
joined [] = []
joined (s ∷ ss) = s ++ joined ss

-- The slices together are the list, if there is a round for each peer.
pub joined-chunks : (n : ℕ) (ps : List Peer) → length ps ≤ n → joined (chunks n ps) ≡ ps
unfolding chunks
joined-chunks zero [] h = refl
joined-chunks zero (p ∷ ps) h = absurd (omega arith)
joined-chunks (suc n) [] h = refl
joined-chunks (suc n) (p ∷ ps) h =
    let rest = drop 6 (p ∷ ps) in
    ap (λ r. take 6 (p ∷ ps) ++ r) (joined-chunks n rest (omega (arith, length-drop 6 (p ∷ ps))))
    ∙ take-append-drop 6 (p ∷ ps)

pub chunks-small : (n : ℕ) (ps : List Peer) → All (λ s. length s ≤ 6) (chunks n ps)
unfolding chunks
chunks-small zero ps = tt
chunks-small (suc n) [] = tt
chunks-small (suc n) (p ∷ ps) =
    (omega (arith, length-take 6 (p ∷ ps)), chunks-small n (drop 6 (p ∷ ps)))

pub length-chunks : (n : ℕ) (ps : List Peer) → 6 * length (chunks n ps) ≤ length ps + 5
unfolding chunks
length-chunks zero ps = omega arith
length-chunks (suc n) [] = omega arith
length-chunks (suc n) (p ∷ ps) =
    omega (arith, length-chunks n (drop 6 (p ∷ ps)), length-drop 6 (p ∷ ps))

-- The outcome without an error in which `b` has sent these datagrams.
abbrev pub with_sent : Backend → List Datagram → Outcome
with_sent b ds = ok (record b { sent = ds }, none)

-- A node whose port has 16 bits.
abbrev pub PortFits : Peer → Type 0
PortFits p = p.udp_addr.port < 65536

nodes-NodeFits : (ps : List Peer) → All NodeFits (map to_rpc_node ps)
unfolding to_rpc_node
nodes-NodeFits [] = tt
nodes-NodeFits (p ∷ ps) = ((omega arith, omega arith), nodes-NodeFits ps)

module _ (w : Env) where
  -- A datagram that another backend decodes to a neighbours packet of this one with these nodes.
  pub record Carries (to : Peer) (ps : List Peer) (d : Datagram) : Type 0 where
    pub addressed : d.addr ≡ to.udp_addr
    pub payload : Bytes
    pub signed :
        decode_packet w.curve d.buf
        ≡ ok (take 32 d.buf, neighbors_packet ∷ payload, w.curve.marshal (w.curve.public_key w.key))
    pub nodes :
        (parsed w.rlp payload >>= unmarshal_neighbors w.rlp)
        ≡ ok (record { nodes = map to_rpc_node ps; expiration = 0 })

  -- One datagram for each slice, in the order of the slices.
  abbrev pub CarriesAll : Peer → List (List Peer) → List Datagram → Type 0
  CarriesAll to [] [] = Unit
  CarriesAll to [] (d ∷ ds) = ⊥
  CarriesAll to (s ∷ ss) [] = ⊥
  CarriesAll to (s ∷ ss) (d ∷ ds) = Carries to s d × CarriesAll to ss ds

  pub length-CarriesAll :
      (to : Peer) (ss : List (List Peer)) (ds : List Datagram)
      → CarriesAll to ss ds
      → length ds ≡ length ss
  length-CarriesAll to [] [] h = refl
  length-CarriesAll to [] (d ∷ ds) h = absurd h
  length-CarriesAll to (s ∷ ss) [] h = absurd h
  length-CarriesAll to (s ∷ ss) (d ∷ ds) h = ap suc (length-CarriesAll to ss ds h.1)

  module _ (l : Laws w.curve) (signs : (h : Bytes) → (s : Bytes) × (sign w.curve w.key h ≡ ok s))
      (to : Peer) (takes : (packet : Bytes) → w.write_to packet to.udp_addr ≡ true) where
    send_neighbors-one :
        (ps : List Peer) (b : Backend)
        → (d : Datagram) × Carries to ps d
          × (send_packet w to neighbors_packet
                (marshal_neighbors w.rlp (record { nodes = map to_rpc_node ps; expiration = 0 }))
                b
              ≡ ok (sending d b, none))
    unfolding send_packet
    send_neighbors-one ps b =
        let n : NeighborsResponse = record { nodes = map to_rpc_node ps; expiration = 0 } in
        let payload = w.rlp.marshal (marshal_neighbors w.rlp n) in
        let (s, made) = signs (w.curve.keccak (neighbors_packet ∷ payload)) in
        let (packet, enc, dec) =
          decode_packet-encode_packet w.curve l w.key neighbors_packet payload s made in
        let d : Datagram = record { addr = to.udp_addr; buf = packet } in
        let back =
          unmarshal_neighbors-marshal_neighbors w.rlp n (nodes-NodeFits ps) (omega arith) in
        (
          d,
          record {
            addressed = refl;
            payload = payload;
            signed = dec;
            nodes = rw (w.rlp.parse_of_marshal (marshal_neighbors w.rlp n)) back;
          },
          rw (send_packet, enc, takes packet) refl,
        )

    send_neighbors-CarriesAll :
        (ss : List (List Peer)) (b : Backend)
        → (ds : List Datagram) × (send_neighbors w to ss b ≡ with_sent b (b.sent ++ ds))
          × CarriesAll to ss ds
    unfolding send_neighbors
    send_neighbors-CarriesAll [] b = ([], ap (with_sent b) (sym (append-nil b.sent)), tt)
    send_neighbors-CarriesAll (s ∷ ss) b =
        let (d, c, e) = send_neighbors-one s b in
        let (ds, f, cs) = send_neighbors-CarriesAll ss (sending d b) in
        let step : send_neighbors w to (s ∷ ss) b ≡ send_neighbors w to ss (sending d b) =
          rw (send_neighbors, e) refl in
        (d ∷ ds, step ∙ f ∙ ap (with_sent b) (append_assoc b.sent (d ∷ []) ds), (c, cs))

    -- On a valid backend that can sign and send, a findnode request of a peer with a bond is
    -- answered with at most three datagrams, for the address of the peer, each a signed neighbors
    -- packet of at most six nodes; together they carry, in order, exactly the nodes that
    -- NearestPeersFromTarget finds, at most 16 and all of them known, and nothing else changes. The
    -- primitives have their laws.
    pub handle_find_node-CarriesAll :
        (b : Backend) (payload : Bytes) (req : FindNodeRequest)
        → IsValid w b
        → has_expired to b ≡ false
        → (parsed w.rlp payload >>= unmarshal_find_node w.rlp) ≡ ok req
        → (ps : List Peer) × (ss : List (List Peer)) × (ds : List Datagram)
          × (nearest_peers_from_target w req.target b ≡ ok (ok ps))
          × (handle_find_node w payload to b ≡ with_sent b (b.sent ++ ds))
          × CarriesAll to ss ds
          × (joined ss ≡ ps)
          × All (λ s. length s ≤ 6) ss
          × (length ps ≤ 16)
          × (length ds ≤ 3)
          × All (λ p. get_node p.id b.nodes ≡ some p) ps
    unfolding handle_find_node
    handle_find_node-CarriesAll b payload req v bond dec =
        let (ps, found, few, known, near) = nearest_peers_from_target_lem w l b v req.target in
        let ss = chunks (length ps) ps in
        let (ds, sent, carried) = send_neighbors-CarriesAll ss b in
        (
          ps,
          ss,
          ds,
          found,
          rw (handle_find_node, bond, dec, found) sent,
          carried,
          joined-chunks (length ps) ps (omega arith),
          chunks-small (length ps) ps,
          few,
          omega (arith, length-CarriesAll to ss ds carried, length-chunks (length ps) ps),
          known,
        )
