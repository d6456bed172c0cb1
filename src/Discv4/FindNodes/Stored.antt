-- ===== src/Discv4/FindNodes/Stored.antt =====
-- The first test of findNodes, in discovery/discv4.go, on a peer that is a known node.
use go_devp2p.Prelude.{ℕ, ◌+◌, ◌≡◌, refl, some, le→ltb, arith}
use go_devp2p.Discv4.Peer.{Time, Peer}
use go_devp2p.Discv4.Backend.{Env, Backend, bond_expiration, get_node}
use go_devp2p.Discv4.Handle.Bond.{has_expired-known}
use go_devp2p.Discv4.FindNodes.{request_neighbors, find_nodes_begin}

-- A known node that has answered once is asked for neighbours without a probe, whatever the time
-- now and the time of that answer are.
pub find_nodes_begin-known :
    (w : Env) (now : Time) (ch : ℕ) (p : Peer) (b : Backend) (time : Time)
    → get_node p.id b.nodes ≡ some p
    → p.last ≡ some time
    → find_nodes_begin w now ch p b ≡ request_neighbors w now ch p b
unfolding find_nodes_begin
find_nodes_begin-known w now ch p b time at last =
    let bond = has_expired-known p p b time time last at last in
    let fresh = le→ltb (time + bond_expiration) time (omega arith) in
    rw (find_nodes_begin, bond, fresh) refl
