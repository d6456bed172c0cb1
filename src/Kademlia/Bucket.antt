-- ===== src/Kademlia/Bucket.antt =====
-- discovery/kademlia/bucket.go: a bucket is a list of peers, the most active first.
-- The `list.List` is a list of entries; a call is atomic, so the locks are not modelled.
pub mod Move
pub mod Split
pub mod Taken
use go_devp2p.Prelude.{
  ℕ, zero, suc, Bool, true, false, Option, none, some, List, [], ◌∷◌, map, Bytes, bytes_eq, length,
  reverse_onto, ltb, if◌then◌else◌, Result, ok, err, ◌>>=◌, from_option,
}
use go_devp2p.Kademlia.Key.{common_prefix_len}

-- What stops the program: a panic, or a loop that runs for longer than the rounds given.
pub data Fault : Type 0 where
  panic diverges : Fault

pub record Entry : Type 0 where
  pub id : Bytes
  pub hash : Bytes

abbrev pub Bucket : Type 0
Bucket = List Entry

-- newBucket
abbrev pub new_bucket : Bucket
new_bucket = []

-- Bucket.Peers
unfoldable pub peers : Bucket → List Bytes
peers b = map (λ (e : Entry). e.id) b

-- Bucket.Has
unfoldable pub has : Bytes → Bucket → Bool
has id [] = false
has id (e ∷ es) = if bytes_eq e.id id then true else has id es

-- Bucket.Remove: the first entry with the identifier goes
unfoldable pub remove : Bytes → Bucket → Bucket × Bool
remove id [] = ([], false)
remove id (e ∷ es) =
    let (rest, found) = remove id es in if bytes_eq e.id id then (es, true) else (e ∷ rest, found)

-- Bucket.MoveToFront. The loop goes on behind the element that it moved, so after a move it is at
-- the second element of the list. `seen` is what lies before the cursor, the nearest first.
unfoldable pub move_loop : ℕ → Bytes → List Entry → List Entry → Result Fault Bucket
move_loop fuel id seen [] = ok (reverse_onto seen [])
move_loop zero id seen (e ∷ es) = err diverges
move_loop (suc fuel) id seen (e ∷ es) =
    let moved = move_loop fuel id (e ∷ []) (reverse_onto seen es) in
    let next = move_loop fuel id (e ∷ seen) es in if bytes_eq e.id id then moved else next

unfoldable pub move_to_front : ℕ → Bytes → Bucket → Result Fault Bucket
unfolding move_loop
move_to_front fuel id b = move_loop fuel id [] b

-- Bucket.PushFront
abbrev pub push_front : Entry → Bucket → Bucket
push_front e b = e ∷ b

-- Bucket.PopBack: list.Remove of the nil element of an empty list panics
unfoldable pub pop_back : Bucket → Result Fault (Bytes × Bucket)
pop_back [] = err panic
pop_back (e ∷ []) = ok (e.id, [])
pop_back (e ∷ f ∷ es) = do (last, rest) ← pop_back (f ∷ es); ok (last, e ∷ rest)

-- Bucket.Split: what stays, and the new bucket
unfoldable pub split : ℕ → Bytes → Bucket → Result Fault (Bucket × Bucket)
split cpl target [] = ok ([], [])
split cpl target (e ∷ es) = do
  peer_cpl ← from_option panic (common_prefix_len e.hash target)
  (kept, out) ← split cpl target es
  ok (if ltb cpl peer_cpl then (kept, e ∷ out) else (e ∷ kept, out))
