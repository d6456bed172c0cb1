-- ===== src/Discv4/Lookup.antt =====
-- LookupTarget of discovery/discv4.go: what one lookup keeps, from one reply to the
-- next.
pub mod Bounds
pub mod Ends
pub mod Total
use go_devp2p.Prelude.{
  ℕ, zero, suc, ◌+◌, ◌-◌, Bool, true, false, Option, none, some, List, [], ◌∷◌, ◌++◌, map, Bytes,
  bytes_eq, min, length, get_elem?, ltb, ◌==◌, ◌&&◌, ◌||◌, not, if◌then◌else◌, Result, ok, err,
  ◌>>=◌,
}
use go_devp2p.Kademlia.Bucket.{peers}
use go_devp2p.Kademlia.Table.{Table}
use go_devp2p.Discv4.Peer.{Peer}
use go_devp2p.Discv4.Backend.{
  Env, Backend, Failure, Panic, out_of_range, get_peer, known_peers, nearest_peers_from_target,
}

abbrev pub alpha : ℕ
alpha = 3

-- The identifiers that were seen, the peers still to be asked, how many questions are open, and
-- whom findNodes was called for, from the first one on.
pub record Lookup : Type 0 where
  pub visited : List Bytes
  pub queue : List Peer
  pub pending : ℕ
  pub asked : List Peer

unfoldable pub is_visited : Bytes → List Bytes → Bool
is_visited id [] = false
is_visited id (v ∷ vs) = bytes_eq v id || is_visited id vs

-- the loop that starts questions while fewer than `alpha` are open
unfoldable pub ask_from : List Peer → Lookup → Lookup
ask_from [] l = record l { queue = [] }
ask_from (p ∷ ps) l =
    let more = ask_from ps (record l { pending = l.pending + 1; asked = l.asked ++ p ∷ [] }) in
    if ltb l.pending alpha then more else record l { queue = p ∷ ps }

unfoldable pub ask : Lookup → Lookup
unfolding ask_from
ask l = ask_from l.queue l

-- the loop over the nodes of a reply
unfoldable pub visit : List Peer → Lookup → Lookup
unfolding is_visited
visit [] l = l
visit (p ∷ ps) l = visit ps (
    if is_visited p.id l.visited
    then l
    else record l { visited = l.visited ++ p.id ∷ []; queue = l.queue ++ p ∷ [] })

-- the loop that asks the first `n` peers of the queue
unfoldable pub ask_first : ℕ → List Peer → Lookup → Lookup
ask_first zero ps l = record l { queue = ps }
ask_first (suc n) [] l = record l { queue = [] }
ask_first (suc n) (p ∷ ps) l =
    ask_first n ps (record l { pending = l.pending + 1; asked = l.asked ++ p ∷ [] })

-- the first questions of a lookup, to the peers that are known
unfoldable pub seed : List Peer → Lookup
unfolding ask_first
seed known =
    ask_first (min (length known) alpha) known
      (record { visited = []; queue = known; pending = 0; asked = [] })

-- a round of the loop: a reply is received
unfoldable pub reply : List Peer → Lookup → Lookup
unfolding visit ask
reply nodes l = ask (visit nodes (record l { pending = l.pending - 1 }))

-- the replies in the order in which they are received, until no question is open
unfoldable pub replies : List (List Peer) → Lookup → Lookup
unfolding reply
replies [] l = l
replies (nodes ∷ rest) l =
    let next = replies rest (reply nodes l) in if l.pending == 0 then l else next

module _ (w : Env) where
  -- LookupTarget up to the first questions; `none` is the lookup that does not start
  unfoldable pub lookup_begin : Bytes → Backend → Result Panic (Result Failure (Option Lookup))
  lookup_begin target b =
      if b.active
      then (do
        found ← nearest_peers_from_target w target b
        ok (do known ← found; ok (some (seed known))))
      else ok (ok none)

-- the peers that LookupTarget returns, where those seen are known by now; the order of a Go map is
-- not fixed, and the one here is that of the replies
unfoldable pub lookup_result : Lookup → Backend → Result Failure (List Peer)
unfolding known_peers
lookup_result l b = known_peers l.visited b
