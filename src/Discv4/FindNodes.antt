-- ===== src/Discv4/FindNodes.antt =====
-- findNodes of discovery/discv4.go, from one response that it waits for to the next.
pub mod Collect
pub mod Stored
use go_devp2p.Prelude.{
  ℕ, Bool, true, false, Option, none, some, List, [], ◌∷◌, ◌++◌, Bytes, length, ◌==◌, not,
  if◌then◌else◌, Result, ok, err, ◌>>=◌,
}
use go_devp2p.Rlp.{parsed}
use go_devp2p.Discv4.Messages.{
  RpcNode, FindNodeRequest, NeighborsResponse, marshal_find_node, unmarshal_neighbors,
}
use go_devp2p.Discv4.Peer.{Time, Peer, PeerError, to_peer}
use go_devp2p.Discv4.Backend.{
  Env, RespMessage, Backend, Failure, bad_peer_id, no_probe, no_ping, no_answer, Panic, bucket_size,
  ping_packet, findnode_packet, neighbors_packet, unix_after, has_expired, set_handler, send_task,
  send_packet, probe_node_begin, probe_node_end,
}
use go_devp2p.Discv4.Handle.{decoded}

-- Which response is awaited: the pong of a probe, the ping of the other side, or neighbours, with
-- those received before and whether there was an answer; or the result.
pub data Phase : Type 0 where
  probing awaiting_ping : Phase
  collecting : List Peer → Bool → Phase
  finished : Result Failure (List Peer) → Phase

-- the loop over the nodes of an answer
unfoldable pub to_peers : List RpcNode → Result PeerError (List Peer)
to_peers [] = ok []
to_peers (n ∷ ns) = do p ← to_peer n; ps ← to_peers ns; ok (p ∷ ps)

-- the loop of sendTask
unfoldable pub send_tasks : List Peer → Backend → Backend
unfolding send_task
send_tasks [] b = b
send_tasks (p ∷ ps) b = send_tasks ps (send_task p b)

-- what follows the loop
unfoldable pub collected : List Peer → Bool → Backend → Backend × Phase
collected ps at_least_one b =
    if at_least_one then (send_tasks ps b, finished (ok ps)) else (b, finished (err no_answer))

-- the peers of an answer: the loop ends when there are exactly as many as a bucket holds
unfoldable pub add_peers :
    Result PeerError (List Peer) → List Peer → Backend → Result Panic (Backend × Phase)
unfolding collected
add_peers (err _) ps b = ok (b, finished (err bad_peer_id))
add_peers (ok more) ps b =
    let all = ps ++ more in
    if length all == bucket_size then ok (collected all true b) else ok (b, collecting all true)

module _ (w : Env) where
  -- the request, which asks for the neighbours of the local key
  unfoldable pub request_neighbors : Time → ℕ → Peer → Backend → Result Panic (Backend × Phase)
  request_neighbors now ch p b = do
    let req : FindNodeRequest = record { target = b.local.bytes; expiration = unix_after 20 now }
    (b', _) ←
        send_packet w p findnode_packet (marshal_find_node w.rlp req)
          (set_handler p.id neighbors_packet ch b)
    ok (b', collecting [] false)

  -- findNodes up to the first wait
  unfoldable pub find_nodes_begin : Time → ℕ → Peer → Backend → Result Panic (Backend × Phase)
  find_nodes_begin now ch p b =
      if has_expired p b
      then (do b' ← probe_node_begin w now ch p b; ok (b', probing))
      else request_neighbors now ch p b

  -- an answer, or the end of the time for one
  unfoldable pub collect : RespMessage → List Peer → Bool → Backend → Result Panic (Backend × Phase)
  collect resp ps at_least_one b =
      if resp.complete
      then (do
        answer ← decoded (parsed w.rlp resp.payload >>= unmarshal_neighbors w.rlp)
        add_peers (to_peers answer.nodes) ps b)
      else ok (collected ps at_least_one b)

  -- the next response; `ch` is the channel that a new wait takes
  unfoldable pub find_nodes_step :
      Time → ℕ → Peer → RespMessage → Phase → Backend → Result Panic (Backend × Phase)
  find_nodes_step now ch p resp probing b = do
    (b', alive) ← probe_node_end w resp p b
    ok (
        if alive
        then (set_handler p.id ping_packet ch b', awaiting_ping)
        else (b', finished (err no_probe)))
  find_nodes_step now ch p resp awaiting_ping b =
      if resp.complete then request_neighbors now ch p b else ok (b, finished (err no_ping))
  find_nodes_step now ch p resp (collecting ps at_least_one) b = collect resp ps at_least_one b
  find_nodes_step now ch p resp (finished r) b = ok (b, finished r)

  -- Once the neighbours are asked for: the responses in the order in which they are received.
  unfoldable pub collect_all : List RespMessage → Phase → Backend → Result Panic (Backend × Phase)
  collect_all [] ph b = ok (b, ph)
  collect_all (resp ∷ rest) (collecting ps at_least_one) b = do
    (b', ph) ← collect resp ps at_least_one b
    collect_all rest ph b'
  collect_all (resp ∷ rest) ph b = ok (b, ph)
