-- ===== src/Eth/Handler/Inflight.antt =====
-- The requests in flight of wire/eth/backend.go.
use go_devp2p.Prelude.{
  ℕ, ◌≡◌, refl, ◌∙◌, false, Option, none, some, List, [], ◌∷◌, ◌++◌, ap, All, append-nil, ◌==◌,
  ==_refl, Bool-cases, inl, inr, arith,
}
use go_devp2p.Rlp.{Rlp}
use go_devp2p.Eth.Messages.{Packet}
use go_devp2p.Eth.Handler.{
  Handler, Decoder, load, delete, store, request_write, request_wait, request_done,
  deliver_response, deliver_to, deliver_all, request, Event, delivered,
}

module _ (r : Rlp) (D : Type 0) where
  open r use {Value}

  pub load-delete : (k : ℕ) (l : List (ℕ × Decoder r D)) → load r D k (delete r D k l) ≡ none
  unfolding load delete
  load-delete k [] = refl
  load-delete k ((i, d) ∷ l) = elim (Bool-cases (i == k)) [
    | inl e ↦ rw e (load-delete k l)
    | inr e ↦ rw (e, e) (load-delete k l)
  ]

  pub load-delete_other :
      (k j : ℕ) (l : List (ℕ × Decoder r D))
      → (k == j) ≡ false
      → load r D j (delete r D k l) ≡ load r D j l
  unfolding load delete
  load-delete_other k j [] ne = refl
  load-delete_other k j ((i, d) ∷ l) ne = elim (Bool-cases (i == k)) [
    | inl e ↦ let f : (i == j) ≡ false = ground arith in rw (e, f) (load-delete_other k j l ne)
    | inr e ↦
        rw (e)
          (elim (Bool-cases (i == j)) [ inl f ↦ rw f | inr f ↦ rw f (load-delete_other k j l ne) ])
  ]

  pub load-store :
      (k : ℕ) (d : Decoder r D) (l : List (ℕ × Decoder r D)) → load r D k (store r D k d l) ≡ some d
  unfolding load store
  load-store k d l = rw (==_refl k)

  -- A request that is done is in flight no more, and another number is in flight as before.
  pub request_done_lem :
      (h : Handler r D) (id : ℕ) (dst : Decoder r D) (j : ℕ)
      → (id == j) ≡ false
      → let done = (request_done r D (request_wait r D h id dst) id).inflight in
        (load r D id done ≡ none) × (load r D j done ≡ load r D j h.inflight)
  unfolding request_done request_wait store delete load
  request_done_lem h id dst j ne = rw (==_refl id) (
    load-delete id (delete r D id h.inflight),
    load-delete_other id j (delete r D id h.inflight) ne ∙ load-delete_other id j h.inflight ne,
  )

  -- answers under a number that is not in flight change nothing
  deliver_all-unknown :
      (h : Handler r D) (id : ℕ) (resps : List (Packet Value))
      → load r D id h.inflight ≡ none
      → All (λ (resp : Packet Value). resp.request_id ≡ id) resps
      → deliver_all r D h resps ≡ h
  unfolding deliver_all deliver_response deliver_to
  deliver_all-unknown h id [] free all = refl
  deliver_all-unknown h id (resp ∷ resps) free (same, all) =
      let here : load r D resp.request_id h.inflight ≡ none =
        ap (λ k. load r D k h.inflight) same ∙ free in
      rw (deliver_all, deliver_response, here) (deliver_all-unknown h id resps free all)

  -- the response of a request, and what it does
  abbrev pub answer_under : ℕ → Option Value → Option (Packet Value)
  answer_under id none = none
  answer_under id (some v) = some (record { request_id = id; body = v })

  abbrev pub delivery : ℕ → Decoder r D → Option Value → List (Event r D)
  delivery id dst none = []
  delivery id dst (some v) = delivered id (dst v) ∷ []

  -- A request of a number that is not in flight, for which answers under its number are handled
  -- between the write of the message and the store of the request: those answers are lost, and what
  -- was done in the end is that the message was written and, if another answer ends the wait, that
  -- this one was delivered; the number is not in flight afterwards.
  pub request-early :
      (h : Handler r D) (id code : ℕ) (body : Value) (dst : Decoder r D)
      (early : List (Packet Value)) (reply : Option Value)
      → load r D id h.inflight ≡ none
      → All (λ (resp : Packet Value). resp.request_id ≡ id) early
      → let done = request r D h id code body dst early (answer_under id reply) in
        (done.events ≡ (request_write r D h id code body).events ++ delivery id dst reply)
        × (load r D id done.inflight ≡ none)
  unfolding request request_write request_wait request_done deliver_response deliver_to
  request-early h id code body dst early none free all =
      rw
        (
          request,
          deliver_all-unknown (request_write r D h id code body) id early free all,
          append-nil (request_write r D h id code body).events,
        )
        (refl, load-delete id (store r D id dst h.inflight))
  request-early h id code body dst early (some v) free all =
      rw
        (
          request,
          deliver_all-unknown (request_write r D h id code body) id early free all,
          load-store id dst h.inflight,
        )
        (refl, load-delete id (store r D id dst h.inflight))
