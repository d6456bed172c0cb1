-- ===== src/Rlpx/Session/Shutdown.antt =====
-- How a session of rlpx/session.go ends.
use mathlib.Core.Path.{subst}
use go_devp2p.Prelude.{
  ℕ, ◌%◌, ◌≡◌, ◌⊎◌, refl, sym, ap, ◌∙◌, inl, inr, true, false, ◌==◌, Option, none, some, List, [],
  ◌∷◌, map, ◌++◌, Result-cases, ok_inj, Bytes, if◌then◌else◌, Result, ok, err, Bool-cases,
  Option-cases, All,
}
use go_devp2p.Rlp.{Rlp}
use go_devp2p.Rlpx.Messages.{decode_disc_msg}
use go_devp2p.Rlpx.Frame.{
  Primitives, HalfConn, FrameError, write, eof, incorrect_header_mac, incorrect_payload_mac,
  too_large, code_length, code_too_big, bad_snappy, panic,
}
use go_devp2p.Rlpx.Session.{
  Session, SessionError, frame, stream_closed, reason, panicked, no_matching_protocols,
  message_too_big, disconnected, not_handshake, id_mismatch, codec, get_stream, read_data_at,
  reason_of, write_raw_msg, write_code, disconnect, exit_err, first_error, or_same, offer, recv_msg,
  recv, stop, handle_stream_message, pong_msg, disc_msg, disc_quitting,
}

-- A session that is shut down is closed, with its connection, and has the error of it.
abbrev pub IsClosed : Session → Type 0
IsClosed s = (s.closed ≡ true) × (s.conn_closed ≡ true) × ¬ (s.shutdown_err ≡ none)

abbrev pub Consistent : Session → Type 0
Consistent s = s.shutdown ≡ true → IsClosed s

module _ (c : Primitives) where
  -- A closed session writes nothing.
  write_raw_msg-closed :
      (s : Session) (code : ℕ) (buf : Bytes)
      → s.closed ≡ true
      → write_raw_msg c s code buf ≡ err stream_closed
  unfolding write_raw_msg
  write_raw_msg-closed s code buf h = rw h

  -- A write changes nothing of how a session ends.
  abbrev Keeps : Session → Session → Type 0
  Keeps s t =
      (t.shutdown ≡ s.shutdown)
      × (t.shutdown_err ≡ s.shutdown_err)
      × (t.stream_errors ≡ s.stream_errors)
      × (t.closed ≡ s.closed)
      × (t.conn_closed ≡ s.conn_closed)

  after_write : Session → Result FrameError (HalfConn × Bytes) → Result SessionError Session
  after_write s (ok (half, out)) = ok (record s { half_out = half; sent = s.sent ++ out })
  after_write s (err e) = err (frame e)

  write_raw_msg_lem :
      (s : Session) (code : ℕ) (buf : Bytes)
      → write_raw_msg c s code buf
        ≡ (if s.closed then err stream_closed else after_write s (write c s.half_out code buf))
  unfolding write_raw_msg
  write_raw_msg_lem s code buf = elim (Result-cases (write c s.half_out code buf)) [
    | inl ((half, out), e) ↦ unfold after_write in rw e
    | inr (f, e) ↦ unfold after_write in rw e
  ]

  Keeps-after_write :
      (s : Session) (w : Result FrameError (HalfConn × Bytes)) (s' : Session)
      → after_write s w ≡ ok s'
      → Keeps s s'
  unfolding after_write
  Keeps-after_write s (ok (half, out)) s' e =
      subst (λ t. Keeps s t) (ok_inj e) (refl, refl, refl, refl, refl)
  Keeps-after_write s (err f) s' e = cc

  Keeps-write_raw_msg :
      (s : Session) (code : ℕ) (buf : Bytes) (s' : Session)
      → write_raw_msg c s code buf ≡ ok s'
      → Keeps s s'
  Keeps-write_raw_msg s code buf s' e =
      let e' = sym (write_raw_msg_lem s code buf) ∙ e in
      elim (Bool-cases s.closed) [
        | inl h ↦ let p = write_raw_msg-closed s code buf h in absurd cc
        | inr h ↦
            let p : (if s.closed
                  then err stream_closed
                  else after_write s (write c s.half_out code buf))
                ≡ after_write s (write c s.half_out code buf) =
              rw h in
            Keeps-after_write s (write c s.half_out code buf) s' (sym p ∙ e')
      ]

  Keeps-or_same :
      (s : Session) (m : Result SessionError Session)
      → ((s' : Session) → m ≡ ok s' → Keeps s s')
      → Keeps s (or_same c s m)
  unfolding or_same
  Keeps-or_same s (ok s') h = h s' refl
  Keeps-or_same s (err e) h = (refl, refl, refl, refl, refl)

  disconnect-down : (s : Session) (why : ℕ) → s.shutdown ≡ true → disconnect c s why ≡ s
  unfolding disconnect
  disconnect-down s why h = rw h

  first_error-some : (o : Option SessionError) (e : SessionError) → ¬ (first_error c o e ≡ none)
  unfolding first_error
  first_error-some none e h = cc
  first_error-some (some x) e h = cc

  -- What a session that was not shut down is after it.
  Down : Session → Session → ℕ → Type 0
  Down s t why =
      (t.shutdown ≡ true)
      × (t.closed ≡ true)
      × (t.conn_closed ≡ true)
      × (t.shutdown_err ≡ first_error c s.shutdown_err (reason why))
      × (t.stream_errors ≡ s.stream_errors)

  disconnect-up : (s : Session) (why : ℕ) → s.shutdown ≡ false → Down s (disconnect c s why) why
  unfolding disconnect Down
  disconnect-up s why h =
      let s1 : Session = record s {
        shutdown = true;
        shutdown_err = first_error c s.shutdown_err (reason why);
      } in
      let k =
        Keeps-or_same s1 (write_raw_msg c s1 disc_msg (0xc1 ∷ why % 256 ∷ []))
          (λ s' e. Keeps-write_raw_msg s1 disc_msg (0xc1 ∷ why % 256 ∷ []) s' e) in
      rw h (k.0, refl, refl, k.1, k.2)

  -- Disconnecting again, for any reason, changes nothing.
  pub disconnect_twice :
      (s : Session) (a b : ℕ) → disconnect c (disconnect c s a) b ≡ disconnect c s a
  unfolding Down
  disconnect_twice s a b = disconnect-down (disconnect c s a) b (elim (Bool-cases s.shutdown) [
    | inl h ↦ rw (disconnect-down s a h) h
    | inr h ↦ (disconnect-up s a h).0
  ])

  disconnect-IsClosed : (s : Session) (why : ℕ) → Consistent s → IsClosed (disconnect c s why)
  unfolding Down
  disconnect-IsClosed s why h = elim (Bool-cases s.shutdown) [
    | inl e ↦ rw (disconnect-down s why e) (h e)
    | inr e ↦
        let d = disconnect-up s why e in
        (d.1, d.2, λ n. first_error-some s.shutdown_err (reason why) (sym d.3 ∙ n))
  ]

  offered :
      (e : SessionError) (es : List (Option SessionError))
      → All (λ o. ¬ (o ≡ none)) (map (offer e) es)
  offered e [] = tt
  offered e (none ∷ es) = ((λ h. cc), offered e es)
  offered e (some x ∷ es) = ((λ h. cc), offered e es)

  -- A session that has ended: it is closed, and every stream was told an error.
  abbrev pub Ended : Session → Type 0
  Ended s = IsClosed s × All (λ o. ¬ (o ≡ none)) s.stream_errors

  disconnect-errors : (s : Session) (why : ℕ) → (disconnect c s why).stream_errors ≡ s.stream_errors
  unfolding Down
  disconnect-errors s why = elim (Bool-cases s.shutdown) [
    | inl e ↦ ap (λ t. t.stream_errors) (disconnect-down s why e)
    | inr e ↦ (disconnect-up s why e).4
  ]

  exit_err-Ended : (s : Session) (e : SessionError) → Consistent s → Ended (exit_err c s e)
  unfolding exit_err
  exit_err-Ended s e h =
      let s1 : Session = record s {
        shutdown_err = first_error c s.shutdown_err e;
        stream_errors = map (offer e) s.stream_errors;
      } in
      let h1 : Consistent s1 = λ d. ((h d).0, (h d).1, first_error-some s.shutdown_err e) in
      (
        disconnect-IsClosed s1 disc_quitting h1,
        subst (All (λ o. ¬ (o ≡ none))) (sym (disconnect-errors s1 disc_quitting))
            (offered e s.stream_errors),
      )

  Consistent-Keeps : (s s' : Session) → Keeps s s' → Consistent s → Consistent s'
  Consistent-Keeps s s' (k0, k1, k2, k3, k4) h d =
      let (a, b, n) = h (sym k0 ∙ d) in (k3 ∙ a, k4 ∙ b, λ e. n (sym k1 ∙ e))

  module _ (r : Rlp) where
    Keeps-handle_stream_message :
        (s : Session) (code : ℕ) (buf : Bytes) (s' : Session)
        → handle_stream_message c s code buf ≡ ok s'
        → Keeps s s'
    Keeps-handle_stream_message s code buf s' e = elim (Option-cases (get_stream s.streams code)) [
      | inl n ↦
          let p : handle_stream_message c s code buf ≡ err panicked =
            unfold handle_stream_message in rw (handle_stream_message, n) in
          absurd cc
      | inr (i, n) ↦
          let t : Session = record s { streams = read_data_at i s.streams code buf } in
          let p : handle_stream_message c s code buf ≡ ok t =
            unfold handle_stream_message in rw (handle_stream_message, n) in
          subst (λ t. Keeps s t) (ok_inj (sym p ∙ e)) (refl, refl, refl, refl, refl)
    ]

    Keeps-recv_msg :
        (s : Session) (code : ℕ) (buf : Bytes) (s' : Session)
        → recv_msg c r s code buf ≡ ok s'
        → Keeps s s'
    Keeps-recv_msg s code buf s' e = elim (Bool-cases (code == 2)) [
      | inl h ↦
          let p : recv_msg c r s code buf ≡ write_raw_msg c s pong_msg (0xc0 ∷ []) =
            unfold recv_msg write_code in rw h in
          Keeps-write_raw_msg s pong_msg (0xc0 ∷ []) s' (sym p ∙ e)
      | inr h ↦ elim (Bool-cases (code == 3)) [
        | inl k ↦
            let p : recv_msg c r s code buf ≡ ok s = unfold recv_msg in rw (h, k) in
            subst (λ t. Keeps s t) (ok_inj (sym p ∙ e)) (refl, refl, refl, refl, refl)
        | inr k ↦ elim (Bool-cases (code == 1)) [
          | inl l ↦
              let p : recv_msg c r s code buf
                  ≡ err (reason (reason_of c r (decode_disc_msg r buf))) =
                unfold recv_msg in rw (h, k, l) in
              absurd cc
          | inr l ↦
              let p : recv_msg c r s code buf ≡ handle_stream_message c s code buf =
                unfold recv_msg in rw (h, k, l) in
              Keeps-handle_stream_message s code buf s' (sym p ∙ e)
        ]
      ]
    ]

    abbrev Outcome : Result SessionError Session → Type 0
    Outcome m = (m ≡ err panicked) ⊎ ((s : Session) × (m ≡ ok s) × Ended s)

    exited : (s : Session) (e : SessionError) → Consistent s → Outcome (ok (exit_err c s e))
    exited s e h = inr (exit_err c s e, refl, exit_err-Ended s e h)

    stop-Outcome : (s : Session) (e : SessionError) → Consistent s → Outcome (stop c s e)
    unfolding stop
    stop-Outcome s panicked h = inl refl
    stop-Outcome s stream_closed h = exited s stream_closed h
    stop-Outcome s (frame eof) h = exited s (frame eof) h
    stop-Outcome s (frame incorrect_header_mac) h = exited s (frame incorrect_header_mac) h
    stop-Outcome s (frame incorrect_payload_mac) h = exited s (frame incorrect_payload_mac) h
    stop-Outcome s (frame too_large) h = exited s (frame too_large) h
    stop-Outcome s (frame code_length) h = exited s (frame code_length) h
    stop-Outcome s (frame code_too_big) h = exited s (frame code_too_big) h
    stop-Outcome s (frame bad_snappy) h = exited s (frame bad_snappy) h
    stop-Outcome s (frame panic) h = inl refl
    stop-Outcome s (reason x) h = exited s (reason x) h
    stop-Outcome s no_matching_protocols h = exited s no_matching_protocols h
    stop-Outcome s message_too_big h = exited s message_too_big h
    stop-Outcome s disconnected h = exited s disconnected h
    stop-Outcome s not_handshake h = exited s not_handshake h
    stop-Outcome s id_mismatch h = exited s id_mismatch h
    stop-Outcome s (codec x) h = exited s (codec x) h

    -- However the messages are and however reading ends, receiving on a session that is closed if
    -- it is shut down either panics or ends with the session closed, with its connection, and with
    -- an error for every stream.
    pub recv-Ended :
        (s : Session) (msgs : List (ℕ × Bytes)) (e : SessionError)
        → Consistent s
        → Outcome (recv c r s msgs e)
    recv-Ended s [] e h = unfold recv in stop-Outcome s e h
    recv-Ended s ((code, buf) ∷ msgs) e h = elim (Result-cases (recv_msg c r s code buf)) [
      | inl (s', p) ↦
          let q : recv c r s ((code, buf) ∷ msgs) e ≡ recv c r s' msgs e =
            unfold recv in rw (recv, p) in
          rw q (recv-Ended s' msgs e (Consistent-Keeps s s' (Keeps-recv_msg s code buf s' p) h))
      | inr (f, p) ↦
          let q : recv c r s ((code, buf) ∷ msgs) e ≡ stop c s f = unfold recv in rw (recv, p) in
          rw q (stop-Outcome s f h)
    ]
