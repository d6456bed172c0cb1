-- ===== src/Discv4/Lookup/Total.antt =====
-- How many peers LookupTarget of discovery/discv4.go asks.
use go_devp2p.Prelude.{
  ℕ, zero, suc, ◌+◌, ◌-◌, append-nil, ◌≤◌, ◌≡◌, ◌≢◌, refl, ap, sym, ◌∙◌, inl, inr, false, List, [],
  ◌∷◌, ◌++◌, Bytes, bytes_eq, bytes_eq_iff, length, length-append, ltb, All, All-append, In, ◌==◌,
  Bool-cases, arith,
}
use go_devp2p.Kademlia.Table.Nearest.{length-map}
use go_devp2p.Discv4.Peer.{Peer}
use go_devp2p.Discv4.Lookup.{
  Lookup, is_visited, ask_from, ask, ask_first, visit, seed, reply, replies,
}
use go_devp2p.Discv4.Lookup.Bounds.{ids, NoRepeat}
use go_devp2p.Discv4.Lookup.Ends.{seed-IsRunning, replies-IsRunning}

-- One peer less, and every other one is still there.
remove_one :
    (x : Bytes) (us : List Bytes)
    → In x us
    → (vs : List Bytes) × (length us ≡ suc (length vs)) × ((y : Bytes) → y ≢ x → In y us → In y vs)
remove_one x [] m = absurd m
remove_one x (u ∷ us) (inl e) =
    (us, refl, λ y apart m. elim m [ inl same ↦ absurd (apart (same ∙ sym e)) | inr later ↦ later ])
remove_one x (u ∷ us) (inr m) =
    let (vs, n, keeps) = remove_one x us m in
    (
      u ∷ vs,
      ap suc n,
      λ y apart k. elim k [ inl same ↦ inl same | inr later ↦ inr (keeps y apart later) ],
    )

not_visited : (x : Bytes) (xs : List Bytes) → is_visited x xs ≡ false → All (λ y. y ≢ x) xs
unfolding is_visited
not_visited x [] h = tt
not_visited x (y ∷ ys) h = elim (Bool-cases (bytes_eq y x)) [
  | inl e ↦ absurd (ground arith)
  | inr e ↦ (λ same. cc (e, (bytes_eq_iff y x).1 same), not_visited x ys (ground arith))
]

still :
    (x : Bytes) (us vs : List Bytes)
    → ((y : Bytes) → y ≢ x → In y us → In y vs)
    → (xs : List Bytes) → All (λ y. y ≢ x) xs
    → All (λ y. In y us) xs
    → All (λ y. In y vs) xs
still x us vs keeps [] apart m = tt
still x us vs keeps (y ∷ ys) apart m = (keeps y apart.0 m.0, still x us vs keeps ys apart.1 m.1)

-- Different identifiers of a list are at most as many as the list is long.
pub distinct-le : (xs us : List Bytes) → NoRepeat xs → All (λ x. In x us) xs → length xs ≤ length us
distinct-le [] us n h = omega arith
distinct-le (x ∷ xs) us n h =
    let (vs, size, keeps) = remove_one x us h.0 in
    let sub : All (λ y. In y vs) xs = still x us vs keeps xs (not_visited x xs n.0) h.1 in
    omega (arith, size, distinct-le xs vs n.1 sub)

-- Every reply names peers of `us` only.
abbrev pub Within : List Bytes → List Peer → Type 0
Within us = All (λ p. In p.id us)

module _ (us : List Bytes) where
  abbrev Seen : Lookup → Type 0
  Seen l = All (λ x. In x us) l.visited

  ask_from-visited : (ps : List Peer) (l : Lookup) → (ask_from ps l).visited ≡ l.visited
  unfolding ask_from
  ask_from-visited [] l = refl
  ask_from-visited (p ∷ ps) l = elim (Bool-cases (ltb l.pending 3)) [
    | inr e ↦ rw (ask_from, e) refl
    | inl e ↦
        rw (ask_from, e)
          (ask_from-visited ps (record l { pending = l.pending + 1; asked = l.asked ++ p ∷ [] }))
  ]

  ask_first-visited : (n : ℕ) (ps : List Peer) (l : Lookup) → (ask_first n ps l).visited ≡ l.visited
  unfolding ask_first
  ask_first-visited zero ps l = refl
  ask_first-visited (suc n) [] l = refl
  ask_first-visited (suc n) (p ∷ ps) l =
      ask_first-visited n ps (record l { pending = l.pending + 1; asked = l.asked ++ p ∷ [] })

  visit-Seen : (nodes : List Peer) (l : Lookup) → Within us nodes → Seen l → Seen (visit nodes l)
  unfolding visit
  visit-Seen [] l h s = s
  visit-Seen (p ∷ ps) l h s = elim (Bool-cases (is_visited p.id l.visited)) [
    | inl e ↦ rw (visit, e) (visit-Seen ps l h.1 s)
    | inr e ↦
        rw (visit, e)
          (visit-Seen ps (record l { visited = l.visited ++ p.id ∷ []; queue = l.queue ++ p ∷ [] })
            h.1 (All-append (λ x. In x us) l.visited (p.id ∷ []) s (h.0, tt)))
  ]

  replies-Seen :
      (rs : List (List Peer)) (l : Lookup) → All (Within us) rs → Seen l → Seen (replies rs l)
  unfolding replies reply ask
  replies-Seen [] l h s = s
  replies-Seen (r ∷ rs) l h s = elim (Bool-cases (l.pending == 0)) [
    | inl e ↦ rw (replies, e) s
    | inr e ↦
        let seen = visit r (record l { pending = l.pending - 1 }) in
        let later : Seen seen = visit-Seen r (record l { pending = l.pending - 1 }) h.0 s in
        rw (replies, e)
          (replies-Seen rs (reply r l) h.1 (rw (ask_from-visited seen.queue seen) later))
  ]

  seed-visited : (known : List Peer) → (seed known).visited ≡ []
  unfolding seed
  seed-visited known = ask_first-visited _ known _

  -- Where every reply names peers of a list only, LookupTarget asks at most as many peers as it
  -- begins with and the list is long, and no question is open after that many replies: the lookup
  -- has ended, and has asked every peer that it began with or has seen.
  pub replies-seed_ends :
      (known : List Peer) (rs : List (List Peer))
      → All (Within us) rs
      → (length (replies rs (seed known)).asked ≤ length known + length us)
        × (length known + length us ≤ length rs
            → ((replies rs (seed known)).pending ≡ 0)
              × (ids (replies rs (seed known)).asked
                  ≡ ids known ++ (replies rs (seed known)).visited))
  replies-seed_ends known rs h =
      let l = replies rs (seed known) in
      let (n, k, end) = replies-IsRunning known rs 0 (seed known) (seed-IsRunning known) in
      let seen : Seen l = replies-Seen rs (seed known) h (rw (seed-visited known) tt) in
      let few = distinct-le l.visited us k.ordered.distinct seen in
      let total : length l.asked + length l.queue ≡ length known + length l.visited = omega (
        arith,
        ap length k.ordered.order,
        length-map (λ (p : Peer). p.id) (l.asked ++ l.queue),
        length-append l.asked l.queue,
        length-append (ids known) l.visited,
        length-map (λ (p : Peer). p.id) known,
      ) in
      (
        omega (arith, total, few),
        λ long.
            let closed : l.pending ≡ 0 = elim end [
              | inr z ↦ z
              | inl m ↦ omega (arith, m, k.count, total, few, long)
            ] in
            let nobody : l.queue ≡ [] = elim k.busy.busy [
              | inl e ↦ e
              | inr three ↦ absurd (omega (arith, three, closed))
            ] in
            (
              closed,
              ap ids (sym (append-nil l.asked) ∙ ap (λ q. l.asked ++ q) (sym nobody))
                  ∙ k.ordered.order,
            ),
      )
