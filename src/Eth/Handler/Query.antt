-- ===== src/Eth/Handler/Query.antt =====
-- A query from one peer to another and back.
use go_devp2p.Prelude.{
  ℕ, ◌^◌, ◌<◌, ◌≡◌, ◌↔◌, refl, sym, ap, ◌∙◌, Option, Option-cases, true, inl, inr, none, some, List,
  Bytes, All, ok, err,
}
use go_devp2p.Eth.Messages.Agree.{Agree, status_equal-Agree, Agree-status_equal}
use go_devp2p.Rlp.{Rlp}
use go_devp2p.Eth.Messages.{
  BlockHeadersPacket, Status, Mismatch, status_equal, marshal_request, marshal_rlp,
  unmarshal_hashes, unmarshal_headers, marshal_headers, marshal_hashes, marshal_status,
}
use go_devp2p.Eth.Messages.RoundTrip.{
  HeadersFits, IsHash, StatusFits, unmarshal_status-marshal_status,
  unmarshal_headers-marshal_headers, unmarshal_hashes-marshal_hashes,
  unmarshal_response-marshal_request, unmarshal_response_to-marshal_request,
}
use go_devp2p.Eth.Handler.{
  Backend, Handler, mismatch, Event, delivered, Decoder, load, request_write, deliver_response,
  deliver_to, error_of, answer_with, handle_msg, handshake, compared, write_status, log,
  block_headers_msg, get_block_headers_msg, block_bodies_msg, get_block_bodies_msg,
  pooled_transactions_msg, get_pooled_transactions_msg,
}

-- The queries of eth/66 that are answered.
pub data Query : Type 0 where
  headers : BlockHeadersPacket → Query
  bodies transactions : List Bytes → Query

abbrev pub QueryFits : Query → Type 0
QueryFits (headers g) = HeadersFits g
QueryFits (bodies hs) = All IsHash hs
QueryFits (transactions hs) = All IsHash hs

abbrev pub query_code : Query → ℕ
query_code (headers g) = get_block_headers_msg
query_code (bodies hs) = get_block_bodies_msg
query_code (transactions hs) = get_pooled_transactions_msg

abbrev pub answer_code : Query → ℕ
answer_code (headers g) = block_headers_msg
answer_code (bodies hs) = block_bodies_msg
answer_code (transactions hs) = pooled_transactions_msg

module _ (r : Rlp) (D : Type 0) where
  open r use {Value, parse_of_marshal}

  abbrev pub query_body : Query → Value
  query_body (headers g) = marshal_headers r g
  query_body (bodies hs) = marshal_hashes r hs
  query_body (transactions hs) = marshal_hashes r hs

  -- What the backend has for a query.
  abbrev pub answer : Backend r D → Query → Value
  answer impl (headers g) = impl.get_block_header g
  answer impl (bodies hs) = impl.get_block_bodies hs
  answer impl (transactions hs) = impl.get_transactions hs

  abbrev pub message : ℕ → Value → Bytes
  message id body = marshal_rlp r (marshal_request r (record { request_id = id; body = body }))

  module _ (id : ℕ) (id_fits : id < 2 ^ 64) where
    -- The peer that is asked answers a query with what its backend has, under the same number.
    pub handle_msg-query :
        (impl : Backend r D) (h : Handler r D) (q : Query)
        → QueryFits q
        → handle_msg r D impl h (query_code q) (message id (query_body q))
          ≡ (request_write r D h id (answer_code q) (answer impl q), none)
    unfolding handle_msg answer_with
    handle_msg-query impl h (headers g) fits = rw (
      parse_of_marshal (marshal_request r (record { request_id = id; body = marshal_headers r g })),
      unmarshal_response_to-marshal_request r (unmarshal_headers r)
          (record { request_id = id; body = marshal_headers r g }) g id_fits
          (unmarshal_headers-marshal_headers r g fits),
    )
    handle_msg-query impl h (bodies hs) fits = rw (
      parse_of_marshal (marshal_request r (record { request_id = id; body = marshal_hashes r hs })),
      unmarshal_response_to-marshal_request r (unmarshal_hashes r)
          (record { request_id = id; body = marshal_hashes r hs }) hs id_fits
          (unmarshal_hashes-marshal_hashes r hs fits),
    )
    handle_msg-query impl h (transactions hs) fits = rw (
      parse_of_marshal (marshal_request r (record { request_id = id; body = marshal_hashes r hs })),
      unmarshal_response_to-marshal_request r (unmarshal_hashes r)
          (record { request_id = id; body = marshal_hashes r hs }) hs id_fits
          (unmarshal_hashes-marshal_hashes r hs fits),
    )

    handle_msg_deliver :
        (impl : Backend r D) (h : Handler r D) (q : Query) (v : Value)
        → handle_msg r D impl h (answer_code q) (message id v)
          ≡ deliver_response r D h (record { request_id = id; body = v })
    unfolding handle_msg
    handle_msg_deliver impl h (headers g) v = rw (
      parse_of_marshal (marshal_request r (record { request_id = id; body = v })),
      unmarshal_response-marshal_request r (record { request_id = id; body = v }) id_fits,
    )
    handle_msg_deliver impl h (bodies hs) v = rw (
      parse_of_marshal (marshal_request r (record { request_id = id; body = v })),
      unmarshal_response-marshal_request r (record { request_id = id; body = v }) id_fits,
    )
    handle_msg_deliver impl h (transactions hs) v = rw (
      parse_of_marshal (marshal_request r (record { request_id = id; body = v })),
      unmarshal_response-marshal_request r (record { request_id = id; body = v }) id_fits,
    )

    deliver_response_known :
        (h : Handler r D) (v : Value) (dst : Decoder r D)
        → load r D id h.inflight ≡ some dst
        → deliver_response r D h (record { request_id = id; body = v })
          ≡ (log r D h (delivered id (dst v)), error_of r D (dst v))
    unfolding deliver_response deliver_to
    deliver_response_known h v dst e = rw e

    -- A query with a number of 64 bits and fields of the sizes of the protocol is answered: the
    -- peer that is asked writes one message, and the peer that asked, which has the request in
    -- flight, decodes from it what the other backend has, into the destination of that request.
    pub handle_msg-handle_msg :
        (asked asking : Backend r D) (h k : Handler r D) (q : Query) (dst : Decoder r D)
        → QueryFits q
        → load r D id k.inflight ≡ some dst
        → (b : Bytes) × ((handle_msg r D asked h (query_code q) (message id (query_body q))
              ≡ (log r D h (Event.wrote (answer_code q) b), none))
            × (handle_msg r D asking k (answer_code q) b ≡ (
              log r D k (delivered id (dst (answer asked q))),
              error_of r D (dst (answer asked q)),
            )))
    unfolding request_write
    handle_msg-handle_msg asked asking h k q dst fits e = (
      message id (answer asked q),
      (
        handle_msg-query asked h q fits,
        handle_msg_deliver asking k q (answer asked q)
            ∙ deliver_response_known k (answer asked q) dst e,
      ),
    )

  -- the handshake with a status that the remote peer wrote
  handshake-marshal_status :
      (impl : Backend r D) (h : Handler r D) (remote : Status)
      → StatusFits remote
      → handshake r D impl h (some (marshal_rlp r (marshal_status r remote)))
        ≡ compared r D (write_status r D impl h) remote (status_equal impl.status remote)
  unfolding handshake
  handshake-marshal_status impl h remote fits =
      rw
        (
          handshake,
          parse_of_marshal (marshal_status r remote),
          unmarshal_status-marshal_status r remote fits,
        )
        refl

  refused :
      (h : Handler r D) (local_status remote : Status)
      → ¬ Agree local_status remote
      → (m : Mismatch) × (compared r D h remote (status_equal local_status remote)
          ≡ (record h { closed = true }, err (mismatch m)))
  refused h local_status remote n = elim (Option-cases (status_equal local_status remote)) [
    | inl e ↦ absurd (n (status_equal-Agree local_status remote e))
    | inr (m, e) ↦ (m, rw e refl)
  ]

  accepted :
      (h : Handler r D) (remote : Status) (o : Option Mismatch)
      → compared r D h remote o ≡ (h, ok remote)
      → o ≡ none
  accepted h remote none e = refl
  accepted h remote (some m) e = let e' = ap (λ x. x.1) e in cc

  -- The handshake with a remote status of the sizes of the protocol writes the local status, and it
  -- returns the remote status exactly when the two peers agree on the version, the network, the
  -- genesis block and, where the next fork is the same, on the fork hash. Where they do not agree,
  -- it fails with the difference and the connection is closed.
  pub handshake-Agree :
      (impl : Backend r D) (h : Handler r D) (remote : Status)
      → StatusFits remote
      → ((handshake r D impl h (some (marshal_rlp r (marshal_status r remote)))
            ≡ (write_status r D impl h, ok remote))
          ↔ Agree impl.status remote)
        × (¬ Agree impl.status remote
            → (m : Mismatch) × (handshake r D impl h
                  (some (marshal_rlp r (marshal_status r remote)))
                ≡ (record (write_status r D impl h) { closed = true }, err (mismatch m))))
  handshake-Agree impl h remote fits =
      let e = handshake-marshal_status impl h remote fits in
      let w = write_status r D impl h in
      (
        (
          λ p.
              status_equal-Agree impl.status remote
                (accepted w remote (status_equal impl.status remote) (sym e ∙ p)),
          λ a. e ∙ rw (Agree-status_equal impl.status remote a) refl,
        ),
        λ n. let (m, f) = refused w impl.status remote n in (m, e ∙ f),
      )
