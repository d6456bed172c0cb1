-- ===== src/ForkId.antt =====
-- forkid/forkid.go: the fork identifier of EIP-2124.
pub mod Crc32
pub mod Search
pub mod Clean
pub mod Chain
pub mod Validate
use go_devp2p.Prelude.{
  ℕ, zero, suc, ◌+◌, ◌-◌, Bool, true, false, ◌&&◌, ◌||◌, not, Option, none, some, List, [], ◌∷◌,
  ◌++◌, Bytes, bytes_eq, length, get_elem?, set, take, be32, be64, max_uint64, leb, ltb, ◌==◌,
  if◌then◌else◌,
}
use go_devp2p.ForkId.Crc32.{checksum_ieee, update}
use go_devp2p.ForkId.Search.{search}

-- `next` is a uint64
pub record Identifier : Type 0 where
  pub hash : Bytes
  pub next : ℕ

pub record Checksum : Type 0 where
  pub number : ℕ
  pub checksum : Bytes

pub data Incompatible : Type 0 where
  remote_stale local_incompatible_or_stale : Incompatible

-- ID.Equal
unfoldable pub id_equal : Identifier → Identifier → Bool
id_equal a b = not (a.next == b.next) || bytes_eq a.hash b.hash

-- sort.Slice with <
unfoldable pub insert : ℕ → List ℕ → List ℕ
insert a [] = a ∷ []
insert a (b ∷ bs) = let rest = insert a bs in if leb a b then a ∷ b ∷ bs else b ∷ rest

unfoldable pub sort : List ℕ → List ℕ
unfolding insert
sort [] = []
sort (a ∷ xs) = insert a (sort xs)

abbrev pub at : List ℕ → ℕ → ℕ
at forks i = elim (get_elem? forks i) [ none ↦ 0 | some x ↦ x ]

-- The loop that removes repeated items in place, for `rounds` more rounds. It reads and writes in
-- range.
unfoldable pub dedup_loop : ℕ → ℕ → ℕ → List ℕ → List ℕ × ℕ
dedup_loop zero i j forks = (forks, j)
dedup_loop (suc rounds) i j forks =
    let skip = dedup_loop rounds (suc i) j forks in
    let keep = dedup_loop rounds (suc i) (suc j) (set forks j (at forks i)) in
    if at forks i == at forks (i - 1) then skip else keep

-- The loop that skips block 0.
unfoldable pub skip_zeros : List ℕ → List ℕ
skip_zeros [] = []
skip_zeros (x ∷ xs) = let rest = skip_zeros xs in if x == 0 then rest else x ∷ xs

-- cleanForks; `forks[0:j]` panics if j is above the capacity, which is taken to be the length
unfoldable pub clean_forks : List ℕ → Option (List ℕ)
unfolding sort dedup_loop skip_zeros
clean_forks forks =
    let sorted = sort forks in
    let (unique, j) = dedup_loop (length sorted - 1) 1 1 sorted in
    if ltb (length unique) j then none else some (skip_zeros (take j unique))

-- crc32Checksum.Add and Hash
unfoldable pub add_fork : ℕ → ℕ → ℕ
unfolding update be64
add_fork hash fork = update hash (be64 fork)

-- the checksums from the second on, the one at infinity last
unfoldable pub fork_sums : ℕ → List ℕ → List Checksum
fork_sums hash [] = record { number = max_uint64; checksum = be32 (add_fork hash max_uint64) } ∷ []
fork_sums hash (fork ∷ forks) =
    record { number = fork; checksum = be32 (add_fork hash fork) }
    ∷ fork_sums (add_fork hash fork) forks

-- NewForkID
unfoldable pub new_fork_id : Bytes → List ℕ → Option (List Checksum)
new_fork_id genesis forks =
    let hash = checksum_ieee genesis in
    elim (clean_forks forks) [
      | none ↦ none
      | some clean ↦ some (record { number = 0; checksum = be32 hash } ∷ fork_sums hash clean)
    ]

abbrev pub above : List Checksum → ℕ → ℕ → Bool
above cs block i = elim (get_elem? cs i) [ none ↦ false | some c ↦ ltb block c.number ]

-- ForkID.findForkAt, plus one: what sort.Search returns
unfoldable pub find_after : List Checksum → ℕ → Option ℕ
unfolding search
find_after cs block = search (length cs) (above cs block)

-- ForkID.At: an index out of range panics
unfoldable pub at_block : List Checksum → ℕ → Option Identifier
at_block cs block = elim (find_after cs block) [
  | some (suc indx) ↦ elim (get_elem? cs indx) [
    | some c ↦ elim (get_elem? cs (suc indx)) [
      | some n ↦ some (record { hash = c.checksum; next = n.number })
      | none ↦ none
    ]
    | none ↦ none
  ]
  | _ ↦ none
]

abbrev next_number : List Checksum → ℕ
next_number [] = 0
next_number (n ∷ ns) = n.number

-- The last two loops of Validate: `rounds` checksums are left before the local one, and then the
-- others follow. Before the local checksum there is always a next one.
unfoldable pub validate_loop : ℕ → List Checksum → Bytes → ℕ → Option Incompatible
validate_loop rounds [] remote_id remote_next = some local_incompatible_or_stale
validate_loop zero (c ∷ cs) remote_id remote_next =
    let rest = validate_loop zero cs remote_id remote_next in
    if bytes_eq c.checksum remote_id then none else rest
validate_loop (suc rounds) (c ∷ cs) remote_id remote_next =
    let rest = validate_loop rounds cs remote_id remote_next in
    if bytes_eq c.checksum remote_id
    then (if remote_next == next_number cs then none else some remote_stale)
    else rest

-- ForkID.Validate; the outer `none` is a panic, the inner one that no error is returned
unfoldable pub validate : List Checksum → ℕ → Bytes → ℕ → Option (Option Incompatible)
validate cs local_head remote_id remote_next = elim (find_after cs local_head) [
  | some (suc indx) ↦ elim (get_elem? cs indx) [
    | some local ↦ some (
        if bytes_eq local.checksum remote_id
        then (if ltb 0 remote_next && leb remote_next local_head
            then some local_incompatible_or_stale
            else none)
        else validate_loop indx cs remote_id remote_next)
    | none ↦ none
  ]
  | _ ↦ none
]
