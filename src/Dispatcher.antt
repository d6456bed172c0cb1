-- ===== src/Dispatcher.antt =====
-- periodic.go: the dispatcher of periodic jobs, and container/heap, which it calls. A job is its ID,
-- a time is in nanoseconds, and 0 is the zero time. The entries of the map of a periodicHeap point to
-- the items of its heap: the map is the list of its keys here, and an entry is read in the heap.
pub mod Swaps
pub mod Loops
pub mod Items
pub mod Heap
pub mod Refines
pub mod Runs
use go_devp2p.Prelude.{
  ℕ, zero, suc, ◌+◌, ◌-◌, ◌*◌, ◌/◌, Bool, true, false, Option, none, some, List, [], ◌∷◌, ◌++◌,
  Bytes, bytes_eq, length, get_elem?, set, take, ltb, leb, ◌==◌, ◌&&◌, ◌||◌, not, if◌then◌else◌,
  Result, ok, err, ◌>>=◌, from_option,
}

abbrev pub Time : Type 0
Time = ℕ

pub record PJob : Type 0 where
  pub job : Bytes
  pub period : ℕ

pub record Item : Type 0 where
  pub id : Bytes
  pub value : PJob
  pub next : Time
  pub index : ℕ

-- an index out of range, or a loop that is given too few rounds
pub data HeapFault : Type 0 where
  panic diverges : HeapFault

abbrev pub at : List Item → ℕ → Result HeapFault Item
at h i = from_option panic (get_elem? h i)

-- periodicHeapImp.Less, on two times: the zero time is behind every other one
unfoldable pub before : Time → Time → Bool
before a b = if a == 0 then false else if b == 0 then true else ltb a b

unfoldable pub less : List Item → ℕ → ℕ → Result HeapFault Bool
unfolding before
less h i j = do a ← at h i; b ← at h j; ok (before a.next b.next)

-- periodicHeapImp.Swap
unfoldable pub swap : ℕ → ℕ → List Item → Result HeapFault (List Item)
swap i j h = do
  a ← at h i
  b ← at h j
  ok (set (set h i (record b { index = i })) j (record a { index = j }))

-- container/heap: up
unfoldable pub up : ℕ → ℕ → List Item → Result HeapFault (List Item)
up zero j h = err diverges
up (suc fuel) j h =
    let i = (j - 1) / 2 in
    if i == j then ok h else (do
      smaller ← less h j i
      h' ← (if smaller then swap i j h else ok h)
      elim smaller [ false ↦ ok h' | true ↦ up fuel i h' ])

-- container/heap: the child that down compares with
unfoldable pub smaller_child : List Item → ℕ → ℕ → Result HeapFault ℕ
smaller_child h j n =
    if ltb (j + 1) n then (do right ← less h (j + 1) j; ok (if right then j + 1 else j)) else ok j

-- container/heap: down; the index at which it ends
unfoldable pub down : ℕ → ℕ → ℕ → List Item → Result HeapFault (List Item × ℕ)
down zero i n h = err diverges
down (suc fuel) i n h = if leb n (2 * i + 1) then ok (h, i) else (do
  j ← smaller_child h (2 * i + 1) n
  smaller ← less h j i
  h' ← (if smaller then swap i j h else ok h)
  elim smaller [ false ↦ ok (h', i) | true ↦ down fuel j n h' ])

-- container/heap: Fix, and what Remove does before the last item is taken off
unfoldable pub sift : ℕ → ℕ → List Item → Result HeapFault (List Item)
unfolding up down
sift i n h = do (h', j) ← down (n + 1) i n h; if ltb i j then ok h' else up (i + 1) i h'

unfoldable pub fix : ℕ → List Item → Result HeapFault (List Item)
fix i h = sift i (length h) h

-- container/heap: Push, with periodicHeapImp.Push
unfoldable pub heap_push : Item → List Item → Result HeapFault (List Item)
unfolding up
heap_push x h = up (length h + 1) (length h) (h ++ record x { index = length h } ∷ [])

-- container/heap: Remove, with periodicHeapImp.Pop
unfoldable pub heap_remove : ℕ → List Item → Result HeapFault (List Item)
unfolding sift
heap_remove i h = do
  let n = length h - 1
  h' ← (if n == i then ok h else (do s ← swap i n h; sift i n s))
  ok (take n h')

-- an item by its identifier
unfoldable pub find : Bytes → List Item → Option Item
find id [] = none
find id (x ∷ xs) = let rest = find id xs in if bytes_eq x.id id then some x else rest

unfoldable pub contains_key : Bytes → List Bytes → Bool
contains_key id [] = false
contains_key id (k ∷ ks) = bytes_eq k id || contains_key id ks

unfoldable pub delete_key : Bytes → List Bytes → List Bytes
delete_key id [] = []
delete_key id (k ∷ ks) = let rest = delete_key id ks in if bytes_eq k id then rest else k ∷ rest

pub record PeriodicHeap : Type 0 where
  pub index : List Bytes
  pub heap : List Item

-- the errors of the heap
pub data HeapError : Type 0 where
  already_exists not_there : HeapError

-- periodicHeap.Push, Update and Remove; an error leaves the heap as it is
unfoldable pub push :
    PJob → Time → PeriodicHeap → Result HeapFault (PeriodicHeap × Option HeapError)
push p next h = if contains_key p.job h.index then ok (h, some already_exists) else (do
  heap ← heap_push (record { id = p.job; value = p; next = next; index = 0 }) h.heap
  ok (record { index = p.job ∷ h.index; heap = heap }, none))

unfoldable pub update :
    Bytes → Time → PeriodicHeap → Result HeapFault (PeriodicHeap × Option HeapError)
update id next h =
    if contains_key id h.index
    then (do
      x ← from_option panic (find id h.heap)
      heap ← fix x.index (set h.heap x.index (record x { id = id; next = next }))
      ok (record h { heap = heap }, none))
    else ok (h, some not_there)

unfoldable pub remove : Bytes → PeriodicHeap → Result HeapFault (PeriodicHeap × Option HeapError)
remove id h =
    if contains_key id h.index
    then (do
      x ← from_option panic (find id h.heap)
      heap ← heap_remove x.index h.heap
      ok (record { index = delete_key id h.index; heap = heap }, none))
    else ok (h, some not_there)

-- periodicHeap.Peek
unfoldable pub peek : PeriodicHeap → Option Item
peek h = get_elem? h.heap 0

pub record Dispatcher : Type 0 where
  pub heap : PeriodicHeap
  pub tracked : List (Bytes × PJob)
  pub enabled : Bool
  -- eventCh, of 10 jobs, and updateCh, of 1 signal
  pub event_ch : List Bytes
  pub update_ch : Bool

-- NewDispatcher
unfoldable pub new_dispatcher : Dispatcher
new_dispatcher = record {
  heap = record { index = []; heap = [] };
  tracked = [];
  enabled = false;
  event_ch = [];
  update_ch = false;
}

-- the map of tracked jobs
unfoldable pub get_tracked : Bytes → List (Bytes × PJob) → Option PJob
get_tracked id [] = none
get_tracked id ((k, p) ∷ rest) =
    let later = get_tracked id rest in if bytes_eq k id then some p else later

unfoldable pub delete_tracked : Bytes → List (Bytes × PJob) → List (Bytes × PJob)
delete_tracked id [] = []
delete_tracked id ((k, p) ∷ rest) =
    let others = delete_tracked id rest in if bytes_eq k id then others else (k, p) ∷ others

-- Dispatcher.Contains
unfoldable pub contains : Bytes → Dispatcher → Bool
contains id d = elim (get_tracked id d.tracked) [ none ↦ false | some _ ↦ true ]

-- Dispatcher.Add
unfoldable pub add :
    Bytes → ℕ → Time → Dispatcher → Result HeapFault (Dispatcher × Option HeapError)
add job period now d = do
  let p : PJob = record { job = job; period = period }
  let tracked = (job, p) ∷ delete_tracked job d.tracked
  (heap, why) ← push p (now + period) d.heap
  ok (elim why [
    | some e ↦ (record d { heap = heap; tracked = tracked }, some e)
    | none ↦ (record d { heap = heap; tracked = tracked; update_ch = true }, none)
  ])

-- Dispatcher.Remove
unfoldable pub remove_job : Bytes → Dispatcher → Result HeapFault (Dispatcher × Option HeapError)
remove_job id d = elim (get_tracked id d.tracked) [
  | none ↦ ok (d, none)
  | some p ↦ (do
    let tracked = delete_tracked id d.tracked
    (heap, why) ← remove p.job d.heap
    ok (elim why [
      | some e ↦ (record d { heap = heap; tracked = tracked }, some e)
      | none ↦ (record d { heap = heap; tracked = tracked; update_ch = true }, none)
    ]))
]

-- Dispatcher.dispatch; an error of the heap is not looked at
unfoldable pub dispatch : PJob → Time → Dispatcher → Result HeapFault Dispatcher
dispatch p launch d = do
  (heap, _) ← update p.job (launch + p.period) d.heap
  ok (record d {
    heap = heap;
    event_ch = if ltb (length d.event_ch) 10 then d.event_ch ++ p.job ∷ [] else d.event_ch;
  })

-- Dispatcher.nextLaunch
unfoldable pub next_launch : Dispatcher → Option (PJob × Time)
unfolding peek
next_launch d = elim (peek d.heap) [ none ↦ none | some x ↦ some (x.value, x.next) ]
