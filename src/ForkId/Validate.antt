-- ===== src/ForkId/Validate.antt =====
-- Validate of forkid/forkid.go: which remote nodes are accepted.
use go_devp2p.Prelude.{
  ℕ, zero, suc, ◌<◌, ◌≡◌, ◌≢◌, refl, sym, ap, ◌∙◌, inl, inr, ◌&&◌, none, some, List, [], ◌∷◌, Bytes,
  bytes_eq, bytes_eq_iff, get_elem?, some_inj, max_uint64, ltb, leb, if◌then◌else◌, All, All-get,
  Bool-cases, arith,
}
use go_devp2p.ForkId.{
  Identifier, Checksum, local_incompatible_or_stale, at_block, next_number, validate_loop, validate,
}
use go_devp2p.ForkId.Chain.{IsChain, Found, find_after-Found}

-- No two checksums of the chain collide.
abbrev pub NoCollision : List Checksum → Type 0
NoCollision cs =
    (i j : ℕ) (a b : Checksum)
    → get_elem? cs i ≡ some a
    → get_elem? cs j ≡ some b
    → a.checksum ≡ b.checksum
    → i ≡ j

NoCollision-tail : (c : Checksum) (cs : List Checksum) → NoCollision (c ∷ cs) → NoCollision cs
NoCollision-tail c cs h i j a b p q e = omega (arith, h (suc i) (suc j) a b p q e)

next_number-get :
    (cs : List Checksum) (n : Checksum) → get_elem? cs 0 ≡ some n → next_number cs ≡ n.number
next_number-get [] n h = cc
next_number-get (x ∷ cs) n h = ap (λ (c : Checksum). c.number) (some_inj h)

validate_loop-accepts :
    (rounds k : ℕ) (cs : List Checksum) (c n : Checksum)
    → NoCollision cs
    → get_elem? cs k ≡ some c
    → get_elem? cs (suc k) ≡ some n
    → validate_loop rounds cs c.checksum n.number ≡ none
unfolding validate_loop
validate_loop-accepts rounds k [] c n h p q = cc
validate_loop-accepts zero zero (x ∷ cs) c n h p q =
    let e = ap (λ (d : Checksum). d.checksum) (some_inj p) in
    rw ((bytes_eq_iff x.checksum c.checksum).1 e)
validate_loop-accepts (suc rounds) zero (x ∷ cs) c n h p q =
    let e = ap (λ (d : Checksum). d.checksum) (some_inj p) in
    rw ((bytes_eq_iff x.checksum c.checksum).1 e) (ground (arith, next_number-get cs n q))
validate_loop-accepts zero (suc k) (x ∷ cs) c n h p q =
    elim (Bool-cases (bytes_eq x.checksum c.checksum)) [
      | inl e ↦ rw e
      | inr e ↦ rw e (validate_loop-accepts zero k cs c n (NoCollision-tail x cs h) p q)
    ]
validate_loop-accepts (suc rounds) (suc k) (x ∷ cs) c n h p q =
    elim (Bool-cases (bytes_eq x.checksum c.checksum)) [
      | inl e ↦
          absurd (omega (arith, h 0 (suc k) x c refl p ((bytes_eq_iff x.checksum c.checksum).0 e)))
      | inr e ↦ rw e (validate_loop-accepts rounds k cs c n (NoCollision-tail x cs h) p q)
    ]

at_block-Found :
    (cs : List Checksum) (block k : ℕ) (f : Found cs block k)
    → at_block cs block ≡ some (record { hash = f.here.checksum; next = f.next.number })
unfolding at_block
at_block-Found cs block k f = rw (f.found, at_block, f.at_here, f.at_next)

validate-step :
    (cs : List Checksum) (head k : ℕ) (f : Found cs head k) (id : Bytes) (next : ℕ)
    → validate cs head id next
      ≡ some (
          if bytes_eq f.here.checksum id
          then (if ltb 0 next && leb next head then some local_incompatible_or_stale else none)
          else validate_loop k cs id next)
unfolding validate
validate-step cs head k f id next = rw (f.found, validate, f.at_here)

-- Two nodes on one chain without colliding checksums accept each other: Validate at either head
-- returns no error for the identifier that At gives for the other head. Both heads are below the
-- block at infinity.
pub validate-at_block :
    (cs : List Checksum) (local_head remote_head : ℕ)
    → IsChain cs
    → NoCollision cs
    → local_head < max_uint64
    → remote_head < max_uint64
    → (id : Identifier) × (at_block cs remote_head ≡ some id)
      × (validate cs local_head id.hash id.next ≡ some none)
validate-at_block cs l r chain apart hl hr =
    let (k, f) = find_after-Found cs l chain hl in
    let (j, g) = find_after-Found cs r chain hr in
    let id : Identifier = record { hash = g.here.checksum; next = g.next.number } in
    (
      id,
      at_block-Found cs r j g,
      validate-step cs l k f g.here.checksum g.next.number
          ∙ elim (Bool-cases (bytes_eq f.here.checksum g.here.checksum)) [
            | inr e ↦
                rw e
                  (ap some (validate_loop-accepts k j cs g.here g.next apart g.at_here g.at_next))
            | inl e ↦
                let same : k ≡ j =
                  apart k j f.here g.here f.at_here g.at_here
                    ((bytes_eq_iff f.here.checksum g.here.checksum).0 e) in
                let next : f.next ≡ g.next =
                  some_inj (sym f.at_next ∙ ap (λ i. get_elem? cs (suc i)) same ∙ g.at_next) in
                let number : f.next.number ≡ g.next.number = ap (λ (c : Checksum). c.number) next in
                rw e (ground (arith, f.not_yet, number))
          ],
    )

validate_loop-unknown :
    (rounds : ℕ) (cs : List Checksum) (id : Bytes) (next : ℕ)
    → All (λ (c : Checksum). c.checksum ≢ id) cs
    → validate_loop rounds cs id next ≡ some local_incompatible_or_stale
unfolding validate_loop
validate_loop-unknown rounds [] id next a = refl
validate_loop-unknown zero (c ∷ cs) id next a = elim (Bool-cases (bytes_eq c.checksum id)) [
  | inl e ↦ absurd (a.0 ((bytes_eq_iff c.checksum id).0 e))
  | inr e ↦ rw e (validate_loop-unknown zero cs id next a.1)
]
validate_loop-unknown (suc rounds) (c ∷ cs) id next a = elim (Bool-cases (bytes_eq c.checksum id)) [
  | inl e ↦ absurd (a.0 ((bytes_eq_iff c.checksum id).0 e))
  | inr e ↦ rw e (validate_loop-unknown rounds cs id next a.1)
]

-- A remote checksum that is not on the local chain is refused as incompatible or stale, at every
-- head below the block at infinity.
pub validate_unknown :
    (cs : List Checksum) (head : ℕ) (id : Bytes) (next : ℕ)
    → IsChain cs
    → head < max_uint64
    → All (λ (c : Checksum). c.checksum ≢ id) cs
    → validate cs head id next ≡ some (some local_incompatible_or_stale)
validate_unknown cs head id next chain h a =
    let (k, f) = find_after-Found cs head chain h in
    validate-step cs head k f id next ∙ elim (Bool-cases (bytes_eq f.here.checksum id)) [
      | inl e ↦ absurd (
          All-get (λ (c : Checksum). c.checksum ≢ id) cs k a f.at_here
            ((bytes_eq_iff f.here.checksum id).0 e))
      | inr e ↦ rw e (ap some (validate_loop-unknown k cs id next a))
    ]
