-- ===== src/Eth/Messages/Agree.antt =====
-- Status.Equal of wire/eth/messages.go.
use go_devp2p.Prelude.{
  ◌≡◌, ◌↔◌, refl, inl, inr, true, ◌==◌, Bool-cases, bytes_eq_iff, ==_refl, arith, none,
}
use go_devp2p.ForkId.{Identifier, id_equal}
use go_devp2p.Eth.Messages.{Status, status_equal}

-- What two peers have to agree on: of the fork identifiers, the hash, but only where the next fork
-- is the same.
abbrev pub Agree : Status → Status → Type 0
Agree s ss =
    (s.protocol_version ≡ ss.protocol_version)
    × (s.network_id ≡ ss.network_id)
    × (s.genesis ≡ ss.genesis)
    × ((s.fork_id.next ≡ ss.fork_id.next) → s.fork_id.hash ≡ ss.fork_id.hash)

id_equal_iff : (i j : Identifier) → (id_equal i j ≡ true) ↔ ((i.next ≡ j.next) → i.hash ≡ j.hash)
unfolding id_equal
id_equal_iff i j = elim (Bool-cases (i.next == j.next)) [
  | inl e ↦ rw e (
    λ h k. (bytes_eq_iff i.hash j.hash).0 h,
    λ f. (bytes_eq_iff i.hash j.hash).1 (f (ground arith)),
  )
  | inr e ↦ rw e (λ h k. absurd (ground arith), λ f. refl)
]

pub status_equal-Agree : (s ss : Status) → status_equal s ss ≡ none → Agree s ss
unfolding status_equal
status_equal-Agree s ss h =
    ground (arith, bytes_eq_iff s.genesis ss.genesis, id_equal_iff s.fork_id ss.fork_id)

pub Agree-status_equal : (s ss : Status) → Agree s ss → status_equal s ss ≡ none
unfolding status_equal
Agree-status_equal s ss h = rw (
  h.0,
  h.1,
  ==_refl ss.protocol_version,
  ==_refl ss.network_id,
  (bytes_eq_iff s.genesis ss.genesis).1 h.2,
  (id_equal_iff s.fork_id ss.fork_id).1 h.3,
)
