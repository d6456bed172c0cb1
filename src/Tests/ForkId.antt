-- ===== src/Tests/ForkId.antt =====
-- The fork identifiers of forkid/forkid.go on a chain with two forks.
use go_devp2p.Prelude.{
  ℕ, zero, suc, ◌<◌, ◌≡◌, ◌↔◌, refl, none, some, List, [], ◌∷◌, max_uint64, In, arith,
}
use go_devp2p.ForkId.{Identifier, Checksum, clean_forks, new_fork_id, at_block, validate}
use go_devp2p.ForkId.Clean.{Ascending, clean_forks-Ascending}
use go_devp2p.ForkId.Chain.{IsChain, Found, find_after-Found, new_fork_id-IsChain}
use go_devp2p.ForkId.Validate.{NoCollision, validate-at_block}

clean_forks-Ascending_example :
    (clean : List ℕ) × (clean_forks (9 ∷ 0 ∷ 4 ∷ 9 ∷ []) ≡ some clean)
    × Ascending 0 clean
    × ((b : ℕ) → In b clean ↔ (In b (9 ∷ 0 ∷ 4 ∷ 9 ∷ []) × (0 < b)))
clean_forks-Ascending_example = clean_forks-Ascending 9 (0 ∷ 4 ∷ 9 ∷ [])

new_fork_id-IsChain_example :
    (cs : List Checksum) × (new_fork_id (1 ∷ 2 ∷ []) (9 ∷ 4 ∷ []) ≡ some cs) × IsChain cs
new_fork_id-IsChain_example =
    new_fork_id-IsChain (1 ∷ 2 ∷ []) 9 (4 ∷ []) (omega arith, (omega arith, tt))

abbrev genesis_sum : Checksum
genesis_sum = record { number = 0; checksum = 0 ∷ 0 ∷ 0 ∷ 1 ∷ [] }

abbrev fork_sum : Checksum
fork_sum = record { number = 9; checksum = 0 ∷ 0 ∷ 0 ∷ 2 ∷ [] }

abbrev last_sum : Checksum
last_sum = record { number = max_uint64; checksum = 0 ∷ 0 ∷ 0 ∷ 3 ∷ [] }

abbrev chain : List Checksum
chain = genesis_sum ∷ fork_sum ∷ last_sum ∷ []

chain-IsChain : IsChain chain
chain-IsChain = (refl, ((omega arith, (omega arith, refl))))

chain-NoCollision : NoCollision chain
chain-NoCollision zero zero a b p q e = refl
chain-NoCollision zero (suc zero) a b p q e = cc
chain-NoCollision zero (suc (suc zero)) a b p q e = cc
chain-NoCollision zero (suc (suc (suc j))) a b p q e = cc
chain-NoCollision (suc zero) zero a b p q e = cc
chain-NoCollision (suc zero) (suc zero) a b p q e = refl
chain-NoCollision (suc zero) (suc (suc zero)) a b p q e = cc
chain-NoCollision (suc zero) (suc (suc (suc j))) a b p q e = cc
chain-NoCollision (suc (suc zero)) zero a b p q e = cc
chain-NoCollision (suc (suc zero)) (suc zero) a b p q e = cc
chain-NoCollision (suc (suc zero)) (suc (suc zero)) a b p q e = refl
chain-NoCollision (suc (suc zero)) (suc (suc (suc j))) a b p q e = cc
chain-NoCollision (suc (suc (suc i))) j a b p q e = cc

find_after-Found_example : (k : ℕ) × Found chain 9 k
find_after-Found_example = find_after-Found chain 9 chain-IsChain (omega arith)

validate-at_block_example :
    (id : Identifier) × (at_block chain 4 ≡ some id)
    × (validate chain 20 id.hash id.next ≡ some none)
validate-at_block_example =
    validate-at_block chain 20 4 chain-IsChain chain-NoCollision (omega arith) (omega arith)
