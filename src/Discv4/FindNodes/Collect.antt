-- ===== src/Discv4/FindNodes/Collect.antt =====
-- findNodes of discovery/discv4.go at one end and handleFindNodePacket at the other.
use mathlib.Core.Path.{subst}
use go_devp2p.Prelude.{
  suc, ◌+◌, ◌≤◌, ◌<◌, ◌≡◌, refl, ap, sym, ◌∙◌, inl, inr, Bool, true, false, none, some, List, [],
  ◌∷◌, ◌++◌, append_assoc, append-nil, map, Bytes, IsBytes, take, length, length-append,
  length-eq-zero, ok, All, ◌==◌, ==_iff, if◌then◌else◌, Result, Bool-cases, All-map,
  All-append_left, All-append_right, arith, ◌>>=◌,
}
use go_devp2p.Crypto.{sign}
use go_devp2p.Crypto.Recover.{Laws}
use go_devp2p.Rlp.{parsed}
use go_devp2p.Discv4.Messages.{FindNodeRequest, unmarshal_find_node, unmarshal_neighbors}
use go_devp2p.Discv4.Peer.{UdpAddr, Time, Peer, to_rpc_node}
use go_devp2p.Discv4.Peer.RoundTrip.{peer_of, to_peer-to_rpc_node}
use go_devp2p.Discv4.Packet.{decode_packet}
use go_devp2p.Discv4.Backend.{
  Env, RespMessage, Datagram, Backend, Failure, neighbors_packet, has_expired, get_node,
  nearest_peers_from_target,
}
use go_devp2p.Discv4.Backend.Nodes.{IsValid}
use go_devp2p.Discv4.Handle.{handle_find_node}
use go_devp2p.Discv4.Handle.Neighbors.{joined, CarriesAll, with_sent, handle_find_node-CarriesAll}
use go_devp2p.Discv4.FindNodes.{
  Phase, collecting, finished, to_peers, send_tasks, add_peers, collected, collect, collect_all,
}

-- A peer as newPeer makes it: a key of 64 bytes and a port of 16 bits.
abbrev pub IsWhole : Peer → Type 0
IsWhole p = IsBytes p.bytes × (length p.bytes ≡ 64) × (p.udp_addr.port < 65536)

-- What is left of a peer that is sent to another node.
abbrev pub received : List Peer → List Peer
received ps = map (λ (p : Peer). peer_of p.bytes p.udp_addr 0) ps

to_peers-map : (ps : List Peer) → All IsWhole ps → to_peers (map to_rpc_node ps) ≡ ok (received ps)
unfolding to_peers
to_peers-map [] h = refl
to_peers-map (p ∷ ps) h = rw (to_peer-to_rpc_node p h.0.0 h.0.1 h.0.2, to_peers-map ps h.1) refl

-- the end of the time to answer
abbrev pub timed_out : RespMessage
timed_out = record { complete = false; payload = []; timestamp = none }

received-append : (ps qs : List Peer) → received (ps ++ qs) ≡ received ps ++ received qs
received-append [] qs = refl
received-append (p ∷ ps) qs = ap (λ r. peer_of p.bytes p.udp_addr 0 ∷ r) (received-append ps qs)

length-received : (ps : List Peer) → length (received ps) ≡ length ps
length-received [] = refl
length-received (p ∷ ps) = ap suc (length-received ps)

module _ (w : Env) where
  -- An answer with these nodes, as findNodes receives it.
  abbrev pub Delivers : List Peer → RespMessage → Type 0
  Delivers ps resp =
      (resp.complete ≡ true)
      × ((parsed w.rlp resp.payload >>= unmarshal_neighbors w.rlp)
          ≡ ok (record { nodes = map to_rpc_node ps; expiration = 0 }))

  abbrev pub DeliversAll : List (List Peer) → List RespMessage → Type 0
  DeliversAll [] [] = Unit
  DeliversAll [] (m ∷ ms) = ⊥
  DeliversAll (s ∷ ss) [] = ⊥
  DeliversAll (s ∷ ss) (m ∷ ms) = Delivers s m × DeliversAll ss ms

  -- One answer is received: the loop goes on unless there are 16 nodes.
  collect-answer :
      (s acc : List Peer) (any : Bool) (m : RespMessage) (b : Backend)
      → All IsWhole s
      → Delivers s m
      → collect w m acc any b ≡ (
          if length (acc ++ received s) == 16
          then ok (collected (acc ++ received s) true b)
          else ok (b, collecting (acc ++ received s) true))
  unfolding collect add_peers
  collect-answer s acc any m b h d =
      rw (collect, d.0, d.1) (ap (λ r. add_peers r acc b) (to_peers-map s h))

  collect_all-step :
      (m : RespMessage) (ms : List RespMessage) (acc : List Peer) (any : Bool) (b b' : Backend)
      (ph : Phase)
      → collect w m acc any b ≡ ok (b', ph)
      → collect_all w (m ∷ ms) (collecting acc any) b ≡ collect_all w ms ph b'
  unfolding collect_all
  collect_all-step m ms acc any b b' ph e = rw (collect_all, e) refl

  collect_all-finished :
      (ms : List RespMessage) (r : Result Failure (List Peer)) (b : Backend)
      → collect_all w ms (finished r) b ≡ ok (b, finished r)
  unfolding collect_all
  collect_all-finished [] r b = refl
  collect_all-finished (m ∷ ms) r b = refl

  -- The time to answer is over.
  collect_all-timed_out :
      (acc : List Peer) (b : Backend)
      → collect_all w (timed_out ∷ []) (collecting acc true) b ≡ ok (collected acc true b)
  unfolding collect_all collect collected
  collect_all-timed_out acc b = refl

  -- The first answer, and those behind it.
  collect_all-answer :
      (s rest : List Peer) (m : RespMessage) (ms : List RespMessage) (acc : List Peer) (any : Bool)
      (b : Backend)
      → All IsWhole s
      → Delivers s m
      → length acc + length (s ++ rest) ≤ 16
      → collect_all w ms (collecting (acc ++ received s) true) b
        ≡ ok (collected ((acc ++ received s) ++ received rest) true b)
      → collect_all w (m ∷ ms) (collecting acc any) b
        ≡ ok (collected (acc ++ received (s ++ rest)) true b)
  unfolding collected
  collect_all-answer s rest m ms acc any b h d n later =
      let got = acc ++ received s in
      let all : acc ++ received (s ++ rest) ≡ got ++ received rest =
        ap (λ r. acc ++ r) (received-append s rest)
        ∙ sym (append_assoc acc (received s) (received rest)) in
      let size : length got ≡ length acc + length s =
        length-append acc (received s) ∙ omega (arith, length-received s) in
      elim (Bool-cases (length got == 16)) [
        | inl e ↦
            let sixteen = (==_iff (length got) 16).0 e in
            let none_left : rest ≡ [] =
              length-eq-zero rest (omega (arith, length-append s rest, size, sixteen, n)) in
            let done : collect w m acc any b ≡ ok (collected got true b) =
              collect-answer s acc any m b h d ∙ rw e refl in
            let whole : got ≡ acc ++ received (s ++ rest) =
              sym (append-nil got) ∙ ap (λ r. got ++ received r) (sym none_left) ∙ sym all in
            collect_all-step m ms acc any b (collected got true b).0 (collected got true b).1 done
            ∙ collect_all-finished ms (ok got) (send_tasks got b)
            ∙ ap (λ ps. ok (collected ps true b)) whole
        | inr e ↦
            let goes_on : collect w m acc any b ≡ ok (b, collecting got true) =
              collect-answer s acc any m b h d ∙ rw e refl in
            collect_all-step m ms acc any b b (collecting got true) goes_on
            ∙ later
            ∙ ap (λ ps. ok (collected ps true b)) (sym all)
      ]

  collect_all-answers :
      (ss : List (List Peer)) (ms : List RespMessage) (acc : List Peer) (b : Backend)
      → All IsWhole (joined ss)
      → DeliversAll ss ms
      → length acc + length (joined ss) ≤ 16
      → collect_all w (ms ++ timed_out ∷ []) (collecting acc true) b
        ≡ ok (collected (acc ++ received (joined ss)) true b)
  collect_all-answers [] [] acc b h d n =
      collect_all-timed_out acc b ∙ ap (λ ps. ok (collected ps true b)) (sym (append-nil acc))
  collect_all-answers [] (m ∷ ms) acc b h d n = absurd d
  collect_all-answers (s ∷ ss) [] acc b h d n = absurd d
  collect_all-answers (s ∷ ss) (m ∷ ms) acc b h d n =
      let rest = joined ss in
      let size : length (acc ++ received s) ≡ length acc + length s =
        length-append acc (received s) ∙ omega (arith, length-received s) in
      collect_all-answer s rest m (ms ++ timed_out ∷ []) acc true b
        (All-append_left IsWhole s rest h) d.0 n
        (collect_all-answers ss ms (acc ++ received s) b (All-append_right IsWhole s rest h) d.1
          (omega (arith, size, length-append s rest, n)))

  -- Answers to a findnode request, whose nodes are at most 16, and the end of the time to answer:
  -- findNodes returns these nodes.
  pub collect_all-DeliversAll :
      (ss : List (List Peer)) (ms : List RespMessage) (b : Backend)
      → All IsWhole (joined ss)
      → DeliversAll ss ms
      → 0 < length ms
      → length (joined ss) ≤ 16
      → collect_all w (ms ++ timed_out ∷ []) (collecting [] false) b
        ≡ ok (send_tasks (received (joined ss)) b, finished (ok (received (joined ss))))
  unfolding collected
  collect_all-DeliversAll ss [] b h d pos n = absurd (omega arith)
  collect_all-DeliversAll [] (m ∷ ms) b h d pos n = absurd d
  collect_all-DeliversAll (s ∷ ss) (m ∷ ms) b h d pos n =
      collect_all-answer s (joined ss) m (ms ++ timed_out ∷ []) [] false b
        (All-append_left IsWhole s (joined ss) h) d.0 (omega (arith, n))
        (collect_all-answers ss ms (received s) b (All-append_right IsWhole s (joined ss) h) d.1
          (omega (arith, length-received s, length-append s (joined ss), n)))

-- The responses that the datagrams of an answer bring to findNodes, at this time.
abbrev pub Arrives : Env → List Datagram → List RespMessage → Type 0
Arrives w [] [] = Unit
Arrives w [] (m ∷ ms) = ⊥
Arrives w (d ∷ ds) [] = ⊥
Arrives w (d ∷ ds) (m ∷ ms) =
    ((m.complete ≡ true)
      × (decode_packet w.curve d.buf
          ≡ ok (
            take 32 d.buf,
            neighbors_packet ∷ m.payload,
            w.curve.marshal (w.curve.public_key w.key),
          )))
    × Arrives w ds ms

CarriesAll-Arrives :
    (w : Env) (to : Peer) (ss : List (List Peer)) (ds : List Datagram) (time : Time)
    → CarriesAll w to ss ds
    → (ms : List RespMessage) × Arrives w ds ms × DeliversAll w ss ms × (length ms ≡ length ss)
CarriesAll-Arrives w to [] [] time h = ([], tt, tt, refl)
CarriesAll-Arrives w to [] (d ∷ ds) time h = absurd h
CarriesAll-Arrives w to (s ∷ ss) [] time h = absurd h
CarriesAll-Arrives w to (s ∷ ss) (d ∷ ds) time h =
    let m : RespMessage = record {
      complete = true;
      payload = h.0.payload;
      timestamp = some time;
    } in
    let (ms, a, e, n) = CarriesAll-Arrives w to ss ds time h.1 in
    (m ∷ ms, ((refl, h.0.signed), a), ((refl, h.0.nodes), e), ap suc n)

joined-nonempty : (ss : List (List Peer)) → 0 < length (joined ss) → 0 < length ss
joined-nonempty [] h = absurd (omega arith)
joined-nonempty (s ∷ ss) h = omega arith

module _ (w : Env) (l : Laws w.curve)
    (signs : (h : Bytes) → (s : Bytes) × (sign w.curve w.key h ≡ ok s)) (to : Peer)
    (takes : (packet : Bytes) → w.write_to packet to.udp_addr ≡ true) (key : w.curve.PrivateKey)
    (writes : Bytes → UdpAddr → Bool) where
  -- the backend that asks
  abbrev pub asking : Env
  asking = record w { key = key; write_to = writes }

  -- A findnode request of a peer with a bond, at a valid backend that can sign and send and whose
  -- nodes are as newPeer makes them: what handleFindNodePacket sends arrives, in order and followed
  -- by the end of the time to answer, at findNodes of the peer, which returns exactly the nodes
  -- that NearestPeersFromTarget finds, if there is one, without their TCP ports, and queues them to
  -- be probed. The primitives have their laws.
  pub collect_all-handle_find_node :
      (b : Backend) (payload : Bytes) (req : FindNodeRequest) (time : Time)
      → IsValid w b
      → ((p : Peer) → get_node p.id b.nodes ≡ some p → IsWhole p)
      → has_expired to b ≡ false
      → (parsed w.rlp payload >>= unmarshal_find_node w.rlp) ≡ ok req
      → (ps : List Peer) × (ds : List Datagram) × (ms : List RespMessage)
        × (nearest_peers_from_target w req.target b ≡ ok (ok ps))
        × (handle_find_node w payload to b ≡ with_sent b (b.sent ++ ds))
        × Arrives w ds ms
        × (0 < length ps
            → (c : Backend)
            → collect_all asking (ms ++ timed_out ∷ []) (collecting [] false) c
              ≡ ok (send_tasks (received ps) c, finished (ok (received ps))))
  collect_all-handle_find_node b payload req time v whole bond dec =
      let (ps, ss, ds, found, sent, carried, together, small, few, three, known) =
        handle_find_node-CarriesAll w l signs to takes b payload req v bond dec in
      let (ms, arrives, delivers, n) = CarriesAll-Arrives w to ss ds time carried in
      let sound : All IsWhole (joined ss) =
        subst (λ x. All IsWhole x) (sym together)
          (All-map (λ p. get_node p.id b.nodes ≡ some p) IsWhole whole ps known) in
      (
        ps,
        ds,
        ms,
        found,
        sent,
        arrives,
        λ some_node c.
            subst
              (λ x.
                collect_all asking (ms ++ timed_out ∷ []) (collecting [] false) c
                ≡ ok (send_tasks (received x) c, finished (ok (received x))))
              together
              (collect_all-DeliversAll asking ss ms c sound delivers
                (omega
                  (arith, n, joined-nonempty ss (omega (arith, some_node, ap length together))))
                (omega (arith, few, ap length together))),
      )
