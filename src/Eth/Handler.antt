-- ===== src/Eth/Handler.antt =====
-- wire/eth/backend.go: what runs for every peer. A connection takes all that is written; the
-- request numbers, which the code draws at random, are arguments, and the time-out of a request is
-- the call of `request_done` that no delivery comes before. A request in flight is waiting at its
-- channel. Printing is left out.
pub mod Inflight
pub mod Query
use go_devp2p.Prelude.{
  ℕ, ◌≡◌, Bool, true, false, Option, none, some, List, [], ◌∷◌, ◌++◌, Bytes, ◌==◌, if◌then◌else◌,
  Result, ok, err, ◌>>=◌,
}
use go_devp2p.Rlp.{Rlp, CodecError, Decoded, parsed}
use go_devp2p.Eth.Messages.{
  Packet, BlockHeadersPacket, NewBlockHash, Status, Mismatch, status_equal, marshal_request,
  unmarshal_response, unmarshal_response_to, unmarshal_headers, unmarshal_hashes,
  unmarshal_new_block_hashes, unmarshal_status, marshal_status, marshal_rlp, unmarshal_rlp,
}

pub data HandlerError : Type 0 where
  codec : CodecError → HandlerError
  id_not_found unhandled : HandlerError

pub data HandshakeError : Type 0 where
  read_failed : HandshakeError
  panicked : CodecError → HandshakeError
  mismatch : Mismatch → HandshakeError

-- how handler.run ends: a code that is not handled is a panic
pub data RunError : Type 0 where
  handshake_failed : HandshakeError → RunError
  connection_failed not_handled : RunError

-- ethMessage
abbrev pub status_msg : ℕ
status_msg = 0x00

abbrev pub new_block_hashes_msg : ℕ
new_block_hashes_msg = 0x01

abbrev pub transactions_msg : ℕ
transactions_msg = 0x02

abbrev pub get_block_headers_msg : ℕ
get_block_headers_msg = 0x03

abbrev pub block_headers_msg : ℕ
block_headers_msg = 0x04

abbrev pub get_block_bodies_msg : ℕ
get_block_bodies_msg = 0x05

abbrev pub block_bodies_msg : ℕ
block_bodies_msg = 0x06

abbrev pub new_block_msg : ℕ
new_block_msg = 0x07

abbrev pub new_pooled_transaction_hashes_msg : ℕ
new_pooled_transaction_hashes_msg = 0x08

abbrev pub get_pooled_transactions_msg : ℕ
get_pooled_transactions_msg = 0x09

abbrev pub pooled_transactions_msg : ℕ
pooled_transactions_msg = 0x0a

-- `D` is what the callers of requests decode the answers to.
module _ (r : Rlp) (D : Type 0) where
  open r use {Value}

  -- Eth66Backend, the status and the queries; its notifications are events
  pub record Backend : Type 0 where
    pub status : Status
    pub get_block_header : BlockHeadersPacket → Value
    pub get_block_bodies : List Bytes → Value
    pub get_transactions : List Bytes → Value

  -- What a handler does: it notifies its backend, writes a message, or fills the destination of the
  -- request and wakes its caller with the error, if any.
  pub data Event : Type 0 where
    notify_peer : Status → Event
    notify_transactions : Value → Event
    notify_transaction_hashes : List Bytes → Event
    notify_block_hashes : List NewBlockHash → Event
    wrote : ℕ → Bytes → Event
    delivered : ℕ → Decoded D → Event

  -- The decoder of a request's destination
  abbrev pub Decoder : Type 0
  Decoder = Value → Decoded D

  -- `closed` is whether the connection was closed, and `peer_closed` the closeCh of the peer
  pub record Handler : Type 0 where
    pub inflight : List (ℕ × Decoder)
    pub events : List Event
    pub closed : Bool
    pub peer_closed : Bool

  -- sync.Map: Load, Delete and Store
  unfoldable pub load : ℕ → List (ℕ × Decoder) → Option Decoder
  load k [] = none
  load k ((i, d) ∷ l) = if i == k then some d else load k l

  unfoldable pub delete : ℕ → List (ℕ × Decoder) → List (ℕ × Decoder)
  delete k [] = []
  delete k ((i, d) ∷ l) = let rest = delete k l in if i == k then rest else (i, d) ∷ rest

  unfoldable pub store : ℕ → Decoder → List (ℕ × Decoder) → List (ℕ × Decoder)
  store k d l = (k, d) ∷ delete k l

  abbrev pub log : Handler → Event → Handler
  log h e = record h { events = h.events ++ (e ∷ []) }

  -- Peer.request: first the message is written, then handler.doRequest waits for the answer
  unfoldable pub request_write : Handler → ℕ → ℕ → Value → Handler
  request_write h id code body =
      log h
        (wrote code (marshal_rlp r (marshal_request r (record { request_id = id; body = body }))))

  unfoldable pub request_wait : Handler → ℕ → Decoder → Handler
  request_wait h id dst = record h { inflight = store id dst h.inflight }

  -- the deferred call of doRequest
  unfoldable pub request_done : Handler → ℕ → Handler
  request_done h id = record h { inflight = delete id h.inflight }

  abbrev Handled : Type 0
  Handled = Handler × Option HandlerError

  unfoldable pub error_of : Decoded D → Option HandlerError
  error_of (ok d) = none
  error_of (err e) = some (codec e)

  deliver_to : Handler → Packet Value → Option Decoder → Handled
  unfolding error_of
  deliver_to h resp none = (h, some id_not_found)
  deliver_to h resp (some dst) =
      let result = dst resp.body in (log h (delivered resp.request_id result), error_of result)

  -- handler.deliverResponse
  unfoldable pub deliver_response : Handler → Packet Value → Handled
  unfolding deliver_to
  deliver_response h resp = deliver_to h resp (load resp.request_id h.inflight)

  -- if err != nil { return err }, and what is done with the message
  with_msg : {A : Type 0} → Handler → Decoded A → (A → Handled) → Handled
  with_msg h (err e) f = (h, some (codec e))
  with_msg h (ok a) f = f a

  -- a query's answer
  answer_with : {A : Type 0} → Handler → ℕ → (A → Value) → Packet A → Handled
  answer_with h code get msg = (request_write h msg.request_id code (get msg.body), none)

  -- handler.handleMsg
  unfoldable pub handle_msg : Backend → Handler → ℕ → Bytes → Handled
  unfolding with_msg answer_with
  handle_msg impl h code buf =
      let deliver = with_msg h (unmarshal_rlp r (unmarshal_response r) buf) (deliver_response h) in
      if code == transactions_msg
      then with_msg h (parsed r buf) (λ v. (log h (notify_transactions v), none))
      else if code == new_block_hashes_msg
      then with_msg h (unmarshal_rlp r (unmarshal_new_block_hashes r) buf)
          (λ msg. (log h (notify_block_hashes msg), none))
      else if code == new_pooled_transaction_hashes_msg
      then with_msg h (unmarshal_rlp r (unmarshal_hashes r) buf)
          (λ msg. (log h (notify_transaction_hashes msg), none))
      else if code == block_bodies_msg
      then deliver
      else if code == get_block_bodies_msg
      then with_msg h (unmarshal_rlp r (unmarshal_response_to r (unmarshal_hashes r)) buf)
          (answer_with h block_bodies_msg impl.get_block_bodies)
      else if code == block_headers_msg
      then deliver
      else if code == get_block_headers_msg
      then with_msg h (unmarshal_rlp r (unmarshal_response_to r (unmarshal_headers r)) buf)
          (answer_with h block_headers_msg impl.get_block_header)
      else if code == pooled_transactions_msg
      then deliver
      else if code == get_pooled_transactions_msg
      then with_msg h (unmarshal_rlp r (unmarshal_response_to r (unmarshal_hashes r)) buf)
          (answer_with h pooled_transactions_msg impl.get_transactions)
      else if code == new_block_msg
      then (h, none)
      else (h, some unhandled)

  -- responses that are handled one after the other
  unfoldable pub deliver_all : Handler → List (Packet Value) → Handler
  deliver_all h [] = h
  deliver_all h (resp ∷ resps) = deliver_all (deliver_response h resp).0 resps

  -- Peer.request and handler.doRequest: `early` are the responses that are handled between the write
  -- and the store, and `answer` is the one that ends the wait, if its time is not over before
  unfoldable pub request :
      Handler → ℕ → ℕ → Value → Decoder → List (Packet Value) → Option (Packet Value) → Handler
  unfolding request_write request_wait request_done deliver_response deliver_all
  request h id code body dst early answer =
      let written = request_write h id code body in
      let between = deliver_all written early in
      let waiting = request_wait between id dst in
      let woken : Handler = elim answer [
        | none ↦ waiting
        | some resp ↦ (deliver_response waiting resp).0
      ] in
      request_done woken id

  abbrev Shaken : Type 0
  Shaken = Handler × Result HandshakeError Status

  -- what is done with the difference of the statuses: the connection is closed
  abbrev pub compared : Handler → Status → Option Mismatch → Shaken
  compared h remote none = (h, ok remote)
  compared h remote (some m) = (record h { closed = true }, err (mismatch m))

  abbrev pub with_remote : Handler → Status → Decoded Status → Shaken
  with_remote h local_status (err e) = (h, err (panicked e))
  with_remote h local_status (ok remote) = compared h remote (status_equal local_status remote)

  abbrev pub write_status : Backend → Handler → Handler
  write_status impl h = log h (wrote status_msg (marshal_rlp r (marshal_status r impl.status)))

  -- handler.handshake, on what the first read gives; the goroutine that writes the local status runs
  -- at once
  unfoldable pub handshake : Backend → Handler → Option Bytes → Shaken
  handshake impl h none = (h, err read_failed)
  handshake impl h (some buf) =
      with_remote (write_status impl h) impl.status (unmarshal_rlp r (unmarshal_status r) buf)

  -- the loop of handler.run, over the messages read until the connection fails: an error is printed
  -- and the loop goes on, a panic ends it
  unfoldable pub run_loop : Backend → Handler → List (ℕ × Bytes) → Handler × RunError
  run_loop impl h [] = (h, connection_failed)
  run_loop impl h ((code, buf) ∷ msgs) =
      let (h', e) = handle_msg impl h code buf in
      let rest = run_loop impl h' msgs in elim e [ some unhandled ↦ (h', not_handled) | _ ↦ rest ]

  -- Peer.close, which is deferred
  abbrev pub close_peer : Handler × RunError → Handler × RunError
  close_peer (h, e) = (record h { peer_closed = true }, e)

  -- handler.run, behind the handshake
  abbrev pub shaken : Backend → List (ℕ × Bytes) → Shaken → Handler × RunError
  shaken impl msgs (h, err e) = close_peer (h, handshake_failed e)
  shaken impl msgs (h, ok remote) = close_peer (run_loop impl (log h (notify_peer remote)) msgs)

  -- handler.run, over the messages read until the connection fails
  unfoldable pub run : Backend → Handler → List (ℕ × Bytes) → Handler × RunError
  run impl h [] = shaken impl [] (handshake impl h none)
  run impl h ((code, buf) ∷ msgs) = shaken impl msgs (handshake impl h (some buf))
