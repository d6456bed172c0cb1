-- ===== src/Tests/Eth.antt =====
-- Two eth handlers of wire/eth/backend.go, with values that are trees.
use go_devp2p.Prelude.{
  ℕ, ◌≡◌, ◌↔◌, refl, true, false, ◌++◌, err, none, some, [], ◌∷◌, Bytes, replicate, ok, arith,
}
use go_devp2p.Rlp.{uint64}
use go_devp2p.Rlp.Tree.{num, tree_rlp}
use go_devp2p.Eth.Messages.{Packet, Mismatch, Status, marshal_rlp, marshal_status}
use go_devp2p.Eth.Messages.Agree.{Agree}
use go_devp2p.Eth.Messages.RoundTrip.{StatusFits}
use go_devp2p.Eth.Handler.{
  Backend, Handler, mismatch, load, log, wrote, delivered, error_of, request_write, request,
  handle_msg, handshake, write_status,
}
use go_devp2p.Eth.Handler.Inflight.{answer_under, delivery, request-early}
use go_devp2p.Eth.Handler.Query.{
  Query, query_code, answer_code, query_body, answer, message, handle_msg-handle_msg,
  handshake-Agree,
}

abbrev status : Status
status = record {
  protocol_version = 66;
  network_id = 1;
  td = 7;
  head = replicate 32 5;
  genesis = replicate 32 6;
  fork_id = record { hash = 1 ∷ 2 ∷ 3 ∷ 4 ∷ []; next = 100 };
}

status-StatusFits : StatusFits status
status-StatusFits = record {
  version = omega arith;
  network = omega arith;
  head = refl;
  genesis = refl;
  fork_hash = refl;
  fork_next = omega arith;
}

abbrev impl : Backend tree_rlp ℕ
impl = record {
  status = status;
  get_block_header = λ g. num g.amount;
  get_block_bodies = λ hs. num 2;
  get_transactions = λ hs. num 3;
}

abbrev idle : Handler tree_rlp ℕ
idle = record { inflight = []; events = []; closed = false; peer_closed = false }

abbrev waiting : Handler tree_rlp ℕ
waiting = record {
  inflight = (5, λ v. uint64 tree_rlp v) ∷ [];
  events = [];
  closed = false;
  peer_closed = false;
}

abbrev bodies_query : Query
bodies_query = Query.bodies (replicate 32 1 ∷ [])

waits : load tree_rlp ℕ 5 waiting.inflight ≡ some (λ v. uint64 tree_rlp v)
unfolding load
waits = refl

handle_msg-handle_msg_example :
    (b : Bytes) × ((handle_msg tree_rlp ℕ impl idle
          (query_code bodies_query)
          (message tree_rlp ℕ 5 (query_body tree_rlp ℕ bodies_query))
        ≡ (log tree_rlp ℕ idle (wrote (answer_code bodies_query) b), none))
      × (handle_msg tree_rlp ℕ impl waiting (answer_code bodies_query) b ≡ (
        log tree_rlp ℕ waiting
            (delivered 5 (uint64 tree_rlp (answer tree_rlp ℕ impl bodies_query))),
        error_of tree_rlp ℕ (uint64 tree_rlp (answer tree_rlp ℕ impl bodies_query)),
      )))
handle_msg-handle_msg_example =
    handle_msg-handle_msg tree_rlp ℕ 5 (omega arith) impl impl idle waiting bodies_query
      (λ v. uint64 tree_rlp v) (refl, tt) waits

handshake-Agree_example :
    ((handshake tree_rlp ℕ impl idle (some (marshal_rlp tree_rlp (marshal_status tree_rlp status)))
        ≡ (write_status tree_rlp ℕ impl idle, ok status))
      ↔ Agree impl.status status)
    × (¬ Agree impl.status status
        → (m : Mismatch) × (handshake tree_rlp ℕ impl idle
              (some (marshal_rlp tree_rlp (marshal_status tree_rlp status)))
            ≡ (record (write_status tree_rlp ℕ impl idle) { closed = true }, err (mismatch m))))
handshake-Agree_example = handshake-Agree tree_rlp ℕ impl idle status status-StatusFits

no_request : load tree_rlp ℕ 5 idle.inflight ≡ none
unfolding load
no_request = refl

abbrev early_response : Packet (tree_rlp.Value)
early_response = record { request_id = 5; body = num 1 }

abbrev done : Handler tree_rlp ℕ
done =
    request tree_rlp ℕ idle 5 3 (num 1) (λ v. uint64 tree_rlp v) (early_response ∷ [])
      (answer_under tree_rlp ℕ 5 none)

request-early_example :
    (done.events
      ≡ (request_write tree_rlp ℕ idle 5 3 (num 1)).events
        ++ delivery tree_rlp ℕ 5 (λ v. uint64 tree_rlp v) none)
    × (load tree_rlp ℕ 5 done.inflight ≡ none)
request-early_example =
    request-early tree_rlp ℕ idle 5 3 (num 1) (λ v. uint64 tree_rlp v) (early_response ∷ []) none
      no_request (refl, tt)
