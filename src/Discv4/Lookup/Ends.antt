-- ===== src/Discv4/Lookup/Ends.antt =====
-- The end of LookupTarget, in discovery/discv4.go.
use go_devp2p.Prelude.{
  ℕ, zero, suc, ◌+◌, ◌-◌, ◌≤◌, ◌<◌, ◌≡◌, refl, ap, sym, ◌⊎◌, inl, inr, List, [], ◌∷◌, ◌++◌,
  append-nil, min, length, length-append, length-eq-zero, ltb, ltb→lt, ltb→le, ◌==◌, ==_iff,
  Bool-cases, arith,
}
use go_devp2p.Discv4.Peer.{Peer}
use go_devp2p.Discv4.Lookup.{Lookup, ask_from, ask, visit, ask_first, seed, reply, replies}
use go_devp2p.Discv4.Lookup.Bounds.{
  ids, IsOrdered, IsBusy, ask_from-IsOrdered, ask_from-IsBusy, ask_first-IsOrdered, visit-IsOrdered,
  visit-pending,
}

-- Every peer asked is an open question or has replied.
ask_from-count :
    (ps : List Peer) (l : Lookup)
    → length (ask_from ps l).asked + l.pending ≡ length l.asked + (ask_from ps l).pending
unfolding ask_from
ask_from-count [] l = refl
ask_from-count (p ∷ ps) l = elim (Bool-cases (ltb l.pending 3)) [
  | inr e ↦ rw (ask_from, e) refl
  | inl e ↦
      let next = record l { pending = l.pending + 1; asked = l.asked ++ p ∷ [] } in
      let go : ask_from (p ∷ ps) l ≡ ask_from ps next = rw (ask_from, e) refl in
      rw go (omega (arith, ask_from-count ps next, length-append l.asked (p ∷ [])))
]

ask_first-count :
    (n : ℕ) (ps : List Peer) (l : Lookup)
    → n ≤ length ps
    → ((ask_first n ps l).pending ≡ l.pending + n)
      × (length (ask_first n ps l).asked ≡ length l.asked + n)
      × (length (ask_first n ps l).queue ≡ length ps - n)
unfolding ask_first
ask_first-count zero ps l h = (omega arith, omega arith, omega arith)
ask_first-count (suc n) [] l h = absurd (omega arith)
ask_first-count (suc n) (p ∷ ps) l h =
    let next = record l { pending = l.pending + 1; asked = l.asked ++ p ∷ [] } in
    let (a, b, c) = ask_first-count n ps next (omega arith) in
    (omega (arith, a), omega (arith, b, length-append l.asked (p ∷ [])), omega (arith, c))

-- What holds between two replies, after `done` of them.
pub record IsRunning (known : List Peer) (done : ℕ) (l : Lookup) : Type 0 where
  pub ordered : IsOrdered known l
  pub busy : IsBusy l
  pub count : length l.asked ≡ done + l.pending

pub seed-IsRunning : (known : List Peer) → IsRunning known 0 (seed known)
unfolding seed
seed-IsRunning known =
    let n = min (length known) 3 in
    let start : Lookup = record { visited = []; queue = known; pending = 0; asked = [] } in
    let (a, b, c) = ask_first-count n known start (omega arith) in
    let full : length (ask_first n known start).queue ≡ length known - n
        → (ask_first n known start).pending ≡ 0 + n
        → ((ask_first n known start).queue ≡ []) ⊎ ((ask_first n known start).pending ≡ 3) =
      λ left open_now. elim (Bool-cases (ltb (length known) 3)) [
        | inl e ↦ inl (
            length-eq-zero (ask_first n known start).queue
              (omega (arith, left, ltb→lt (length known) 3 e)))
        | inr e ↦ inr (omega (arith, open_now, ltb→le (length known) 3 e))
      ] in
    record {
      ordered =
          ask_first-IsOrdered known n known start
            (record { order = sym (append-nil (ids known)); distinct = tt });
      busy = record { bounded = omega (arith, a); busy = full c a };
      count = omega (arith, a, b);
    }

reply-IsRunning :
    (known nodes : List Peer) (done : ℕ) (l : Lookup)
    → 0 < l.pending
    → IsRunning known done l
    → IsRunning known (suc done) (reply nodes l)
unfolding reply ask
reply-IsRunning known nodes done l pos h =
    let taken : Lookup = record l { pending = l.pending - 1 } in
    let seen = visit nodes taken in
    let (same_pending, same_asked) = visit-pending nodes taken in
    record {
      ordered = ask_from-IsOrdered known seen.queue seen (
          visit-IsOrdered known nodes taken
            (record { order = h.ordered.order; distinct = h.ordered.distinct }));
      busy = ask_from-IsBusy seen.queue seen (omega (arith, same_pending, h.busy.bounded));
      count =
          omega
            (arith, ask_from-count seen.queue seen, same_pending, ap length same_asked, h.count);
    }

-- The lookup after any replies: it is still running after all of them, or no question is open.
pub replies-IsRunning :
    (known : List Peer) (rs : List (List Peer)) (done : ℕ) (l : Lookup)
    → IsRunning known done l
    → (n : ℕ) × IsRunning known n (replies rs l)
      × ((n ≡ done + length rs) ⊎ ((replies rs l).pending ≡ 0))
unfolding replies
replies-IsRunning known [] done l h = (done, h, inl (omega arith))
replies-IsRunning known (r ∷ rs) done l h = elim (Bool-cases (l.pending == 0)) [
  | inl e ↦ (done, rw (replies, e) h, rw (replies, e) (inr ((==_iff l.pending 0).0 e)))
  | inr e ↦
      let next = reply-IsRunning known r done l (ground arith) h in
      let (n, k, end) = replies-IsRunning known rs (suc done) (reply r l) next in
      (
        n,
        rw (replies, e) k,
        rw (replies, e) (elim end [ inl m ↦ inl (omega (arith, m)) | inr z ↦ inr z ]),
      )
]
