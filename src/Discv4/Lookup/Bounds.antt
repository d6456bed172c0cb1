-- ===== src/Discv4/Lookup/Bounds.antt =====
-- LookupTarget of discovery/discv4.go: whom it asks, in which order, and how many at a time.
use go_devp2p.Prelude.{
  ℕ, zero, suc, ◌+◌, ◌≤◌, ◌≡◌, refl, ap, sym, ◌∙◌, ◌⊎◌, inl, inr, false, ◌||◌, List, [], ◌∷◌, ◌++◌,
  append_assoc, map, Bytes, bytes_eq, bytes_eq_iff, bytes_eq_refl, ltb, ltb→le, Bool-cases, arith,
}
use go_devp2p.Discv4.Peer.{Peer}
use go_devp2p.Discv4.Lookup.{Lookup, is_visited, ask_from, visit, ask_first}

abbrev pub ids : List Peer → List Bytes
ids ps = map (λ (p : Peer). p.id) ps

-- No identifier is there twice.
abbrev pub NoRepeat : List Bytes → Type 0
NoRepeat [] = Unit
NoRepeat (x ∷ xs) = (is_visited x xs ≡ false) × NoRepeat xs

-- Whom the lookup asked and will ask: the peers it began with and then those it has seen, in the
-- order in which it saw them.
pub record IsOrdered (known : List Peer) (l : Lookup) : Type 0 where
  pub order : ids (l.asked ++ l.queue) ≡ ids known ++ l.visited
  pub distinct : NoRepeat l.visited

-- Between two replies, at most three questions are open, and three if somebody is still to be asked.
pub record IsBusy (l : Lookup) : Type 0 where
  pub bounded : l.pending ≤ 3
  pub busy : (l.queue ≡ []) ⊎ (l.pending ≡ 3)

ids-append : (ps qs : List Peer) → ids (ps ++ qs) ≡ ids ps ++ ids qs
ids-append [] qs = refl
ids-append (p ∷ ps) qs = ap (λ r. p.id ∷ r) (ids-append ps qs)

is_visited-append :
    (x p : Bytes) (xs : List Bytes)
    → is_visited x (xs ++ p ∷ []) ≡ (is_visited x xs || bytes_eq p x)
unfolding is_visited
is_visited-append x p [] = ground arith
is_visited-append x p (y ∷ ys) = ground (arith, is_visited-append x p ys)

bytes_eq-false : (x p : Bytes) → bytes_eq x p ≡ false → bytes_eq p x ≡ false
bytes_eq-false x p h = elim (Bool-cases (bytes_eq p x)) [
  | inr e ↦ e
  | inl e ↦ absurd (cc (h, (bytes_eq_iff p x).0 e, bytes_eq_refl x))
]

NoRepeat-append :
    (p : Bytes) (xs : List Bytes) → is_visited p xs ≡ false → NoRepeat xs → NoRepeat (xs ++ p ∷ [])
unfolding is_visited
NoRepeat-append p [] h n = (refl, tt)
NoRepeat-append p (x ∷ xs) h n = elim (Bool-cases (bytes_eq x p)) [
  | inl e ↦ absurd (ground arith)
  | inr e ↦ (
    is_visited-append x p xs ∙ rw (n.0, bytes_eq-false x p e) refl,
    NoRepeat-append p xs (ground arith) n.1,
  )
]

-- A question moves a peer from the queue to those asked.
pub ask_from-IsOrdered :
    (known ps : List Peer) (l : Lookup)
    → IsOrdered known (record l { queue = ps })
    → IsOrdered known (ask_from ps l)
unfolding ask_from
ask_from-IsOrdered known [] l h = h
ask_from-IsOrdered known (p ∷ ps) l h = elim (Bool-cases (ltb l.pending 3)) [
  | inr e ↦ rw (ask_from, e) h
  | inl e ↦
      rw (ask_from, e)
        (ask_from-IsOrdered known ps
          (record l { pending = l.pending + 1; asked = l.asked ++ p ∷ [] })
          (record {
            order = ap ids (append_assoc l.asked (p ∷ []) ps) ∙ h.order;
            distinct = h.distinct;
          }))
]

pub ask_from-IsBusy : (ps : List Peer) (l : Lookup) → l.pending ≤ 3 → IsBusy (ask_from ps l)
unfolding ask_from
ask_from-IsBusy [] l h = record { bounded = h; busy = inl refl }
ask_from-IsBusy (p ∷ ps) l h = elim (Bool-cases (ltb l.pending 3)) [
  | inr e ↦
      rw (ask_from, e) (record { bounded = h; busy = inr (omega (arith, ltb→le l.pending 3 e)) })
  | inl e ↦
      rw (ask_from, e)
        (ask_from-IsBusy ps (record l { pending = l.pending + 1; asked = l.asked ++ p ∷ [] })
          (ground arith))
]

pub ask_first-IsOrdered :
    (known : List Peer) (n : ℕ) (ps : List Peer) (l : Lookup)
    → IsOrdered known (record l { queue = ps })
    → IsOrdered known (ask_first n ps l)
unfolding ask_first
ask_first-IsOrdered known zero ps l h = h
ask_first-IsOrdered known (suc n) [] l h = h
ask_first-IsOrdered known (suc n) (p ∷ ps) l h =
    ask_first-IsOrdered known n ps (record l { pending = l.pending + 1; asked = l.asked ++ p ∷ [] })
      (record {
        order = ap ids (append_assoc l.asked (p ∷ []) ps) ∙ h.order;
        distinct = h.distinct;
      })

-- What the nodes of a reply add.
pub visit-IsOrdered :
    (known nodes : List Peer) (l : Lookup) → IsOrdered known l → IsOrdered known (visit nodes l)
unfolding visit
visit-IsOrdered known [] l h = h
visit-IsOrdered known (p ∷ ps) l h = elim (Bool-cases (is_visited p.id l.visited)) [
  | inl e ↦ rw (visit, e) (visit-IsOrdered known ps l h)
  | inr e ↦
      rw (visit, e)
        (visit-IsOrdered known ps
          (record l { visited = l.visited ++ p.id ∷ []; queue = l.queue ++ p ∷ [] })
          (record {
            order =
                ap ids (sym (append_assoc l.asked l.queue (p ∷ [])))
                ∙ ids-append (l.asked ++ l.queue) (p ∷ [])
                ∙ ap (λ r. r ++ p.id ∷ []) h.order
                ∙ append_assoc (ids known) l.visited (p.id ∷ []);
            distinct = NoRepeat-append p.id l.visited e h.distinct;
          }))
]

pub visit-pending :
    (nodes : List Peer) (l : Lookup)
    → ((visit nodes l).pending ≡ l.pending) × ((visit nodes l).asked ≡ l.asked)
unfolding visit
visit-pending [] l = (refl, refl)
visit-pending (p ∷ ps) l = elim (Bool-cases (is_visited p.id l.visited)) [
  | inl e ↦ rw (visit, e) (visit-pending ps l)
  | inr e ↦
      rw (visit, e)
        (visit-pending ps
          (record l { visited = l.visited ++ p.id ∷ []; queue = l.queue ++ p ∷ [] }))
]
