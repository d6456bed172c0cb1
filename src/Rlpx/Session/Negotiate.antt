-- ===== src/Rlpx/Session/Negotiate.antt =====
-- The streams that the protocols of rlpx/session.go are given, and the messages that they get.
use mathlib.Core.Path.{subst}
use go_devp2p.Prelude.{
  ℕ, zero, suc, ◌+◌, ◌≤◌, ◌<◌, ◌≡◌, ◌⊎◌, ◌↔◌, refl, sym, ap, ◌∙◌, inl, inr, Bool, true, false, ◌&&◌,
  Option, none, some, List, [], ◌∷◌, ◌++◌, Bytes, leb, ltb, ◌==◌, if◌then◌else◌, ok, err,
  Bool-cases, ltb→lt, ltb→le, Option-cases, get_elem?, some_inj, arith,
}
use go_devp2p.Rlp.{Rlp}
use go_devp2p.Rlpx.Messages.{Cap, Info}
use go_devp2p.Rlpx.Frame.{Primitives}
use go_devp2p.Rlpx.Stream.{ProtocolSpec, Stream, new_stream, read_data}
use go_devp2p.Rlpx.Session.{
  Session, panicked, get_protocol, open_stream, negotiate_loop, negotiate_protocols, get_stream,
  read_data_at, handle_stream_message, recv_msg,
}

-- The streams lie one behind the other, from `o` up to `e`.
abbrev pub Ranges : ℕ → List Stream → ℕ → Type 0
Ranges o [] e = o ≡ e
Ranges o (p ∷ ps) e = (p.offset ≡ o) × Ranges (o + p.length) ps e

lt_or_le : (a b : ℕ) → (a < b) ⊎ (b ≤ a)
lt_or_le a b = elim (Bool-cases (ltb a b)) [
  | inl e ↦ inl (ltb→lt a b e)
  | inr e ↦ inr (ltb→le a b e)
]

Ranges-append :
    (o m : ℕ) (ps : List Stream) (n : ℕ) (spec : ProtocolSpec)
    → Ranges o ps m
    → Ranges o (ps ++ (new_stream m n spec ∷ [])) (m + n)
unfolding new_stream
Ranges-append o m [] n spec h = (sym h, ap (λ k. k + n) h)
Ranges-append o m (p ∷ ps) n spec h = (h.0, Ranges-append (o + p.length) m ps n spec h.1)

negotiate_loop-Ranges :
    (backends : List ProtocolSpec) (s : Session) (m : ℕ) (cs : List Cap)
    → Ranges 16 s.streams m
    → (e : ℕ) × Ranges 16 (negotiate_loop backends s m cs).streams e
negotiate_loop-Ranges backends s m [] h = unfold negotiate_loop in (m, h)
negotiate_loop-Ranges backends s m (c ∷ cs) h =
    elim (Option-cases (get_protocol backends c.name c.version)) [
      | inl e ↦
          let step : negotiate_loop backends s m (c ∷ cs) ≡ negotiate_loop backends s m cs =
            unfold negotiate_loop in rw (negotiate_loop, e) in
          rw step (negotiate_loop-Ranges backends s m cs h)
      | inr (p, e) ↦
          let s' = open_stream s m p.length p in
          let step : negotiate_loop backends s m (c ∷ cs)
              ≡ negotiate_loop backends s' (m + p.length) cs =
            unfold negotiate_loop in rw (negotiate_loop, e) in
          let h' : Ranges 16 s'.streams (m + p.length) =
            unfold open_stream in Ranges-append 16 m s.streams p.length p h in
          rw step (negotiate_loop-Ranges backends s' (m + p.length) cs h')
    ]

-- The code is in the range of the stream.
abbrev pub InRange : ℕ → Stream → Type 0
InRange code p = (p.offset ≤ code) × (code < p.offset + p.length)

Ranges-le : (o : ℕ) (ps : List Stream) (e : ℕ) → Ranges o ps e → o ≤ e
Ranges-le o [] e h = omega arith
Ranges-le o (p ∷ ps) e h = omega (arith, Ranges-le (o + p.length) ps e h.1)

-- a stream of the ranges starts at their start or behind it
Ranges-offset :
    (o : ℕ) (ps : List Stream) (e : ℕ)
    → Ranges o ps e
    → (i : ℕ) (p : Stream) → get_elem? ps i ≡ some p
    → o ≤ p.offset
Ranges-offset o [] e h i p a = cc
Ranges-offset o (x ∷ ps) e h zero p a =
    let here = ap (λ (s : Stream). s.offset) (some_inj a) in omega (arith, here, h.0)
Ranges-offset o (x ∷ ps) e h (suc i) p a =
    let lo = Ranges-offset (o + x.length) ps e h.1 i p a in omega (arith, lo)

in_range : ℕ → Stream → Bool
in_range code p = leb p.offset code && ltb code (p.offset + p.length)

get_stream-in :
    (p : Stream) (ps : List Stream) (code : ℕ) → InRange code p → get_stream (p ∷ ps) code ≡ some 0
unfolding get_stream
get_stream-in p ps code h =
    let e : in_range code p ≡ true = unfold in_range in ground arith in
    let e' : (leb p.offset code && ltb code (p.offset + p.length)) ≡ true = unfold in_range in e in
    ap
      (λ b.
        if b
        then some 0
        else elim (get_stream ps code) as (λ x. Option ℕ) [ none ↦ none | some i ↦ some (i + 1) ])
      e'

abbrev next_position : Option ℕ → Option ℕ
next_position none = none
next_position (some i) = some (i + 1)

get_stream-out :
    (p : Stream) (ps : List Stream) (code : ℕ)
    → ¬ InRange code p
    → get_stream (p ∷ ps) code ≡ next_position (get_stream ps code)
unfolding get_stream
get_stream-out p ps code h = ground arith

get_stream-outside :
    (o : ℕ) (ps : List Stream) (e code : ℕ)
    → Ranges o ps e
    → (code < o) ⊎ (e ≤ code)
    → get_stream ps code ≡ none
get_stream-outside o [] e code h out = unfold get_stream in refl
get_stream-outside o (p ∷ ps) e code h (inl lt) =
    get_stream-out p ps code (λ r. omega arith)
    ∙ ap next_position (get_stream-outside (o + p.length) ps e code h.1 (inl (omega arith)))
get_stream-outside o (p ∷ ps) e code h (inr le) =
    get_stream-out p ps code (λ r. omega (arith, Ranges-le (o + p.length) ps e h.1))
    ∙ ap next_position (get_stream-outside (o + p.length) ps e code h.1 (inr le))

-- The stream at a position has the code in its range, and getStream finds that position.
abbrev pub Finds : List Stream → ℕ → ℕ → Stream → Type 0
Finds ps code i p = (get_stream ps code ≡ some i) × (get_elem? ps i ≡ some p) × InRange code p

get_stream-inside :
    (o : ℕ) (ps : List Stream) (e code : ℕ)
    → Ranges o ps e
    → o ≤ code
    → code < e
    → (i : ℕ) × (p : Stream) × Finds ps code i p
get_stream-inside o [] e code h lo hi = absurd (omega arith)
get_stream-inside o (p ∷ ps) e code h lo hi = elim (lt_or_le code (o + p.length)) [
  | inl lt ↦
      let r : InRange code p = (omega arith, omega arith) in
      (0, p, (get_stream-in p ps code r, refl, r))
  | inr le ↦
      let (i, q, (g, at', r)) = get_stream-inside (o + p.length) ps e code h.1 le hi in
      let e1 : i + 1 ≡ suc i = omega arith in
      (
        suc i,
        q,
        (get_stream-out p ps code (λ r'. omega arith) ∙ (ap next_position g ∙ ap some e1), at', r),
      )
]

-- In ranges that lie one behind the other a code is in one range at most.
Ranges-InRange :
    (o : ℕ) (ps : List Stream) (e code : ℕ)
    → Ranges o ps e
    → (i j : ℕ) (p q : Stream) → get_elem? ps i ≡ some p
    → get_elem? ps j ≡ some q
    → InRange code p
    → InRange code q
    → i ≡ j
Ranges-InRange o [] e code h i j p q a b r t = cc
Ranges-InRange o (x ∷ ps) e code h zero zero p q a b r t = refl
Ranges-InRange o (x ∷ ps) e code h zero (suc j) p q a b r t =
    let lo = Ranges-offset (o + x.length) ps e h.1 j q b in
    let here = ap (λ (s : Stream). s.offset + s.length) (some_inj a) in
    absurd (omega (arith, lo, here, h.0, r.1, t.0))
Ranges-InRange o (x ∷ ps) e code h (suc i) zero p q a b r t =
    let lo = Ranges-offset (o + x.length) ps e h.1 i p a in
    let here = ap (λ (s : Stream). s.offset + s.length) (some_inj b) in
    absurd (omega (arith, lo, here, h.0, t.1, r.0))
Ranges-InRange o (x ∷ ps) e code h (suc i) (suc j) p q a b r t =
    ap suc (Ranges-InRange (o + x.length) ps e code h.1 i j p q a b r t)

negotiated :
    (backends : List ProtocolSpec) (s s' : Session) (info : Info)
    → negotiate_protocols backends s info ≡ ok s'
    → negotiate_loop backends s 16 info.caps ≡ s'
negotiated backends s s' info h = unfold negotiate_protocols in ground arith

negotiate_protocols-Ranges :
    (backends : List ProtocolSpec) (s s' : Session) (info : Info)
    → s.streams ≡ []
    → negotiate_protocols backends s info ≡ ok s'
    → (e : ℕ) × Ranges 16 s'.streams e
negotiate_protocols-Ranges backends s s' info empty h =
    let start : Ranges 16 s.streams 16 = subst (λ l. Ranges 16 l 16) (sym empty) refl in
    let (e, ranges) = negotiate_loop-Ranges backends s 16 info.caps start in
    (e, subst (λ t. Ranges 16 t.streams e) (negotiated backends s s' info h) ranges)

-- Where the negotiation succeeds on a session without streams, every code from 16 up to some end is
-- in the range of one stream and no other, which is the one that getStream finds for it, and
-- getStream finds none for the codes below and above.
pub negotiate_protocols-Finds :
    (backends : List ProtocolSpec) (s s' : Session) (info : Info)
    → s.streams ≡ []
    → negotiate_protocols backends s info ≡ ok s'
    → (e : ℕ) × (((code : ℕ)
          → 16 ≤ code
          → code < e
          → (i : ℕ) × (p : Stream) × Finds s'.streams code i p)
        × ((code j k : ℕ) (p q : Stream)
            → get_elem? s'.streams j ≡ some p
            → get_elem? s'.streams k ≡ some q
            → InRange code p
            → InRange code q
            → j ≡ k)
        × ((code : ℕ) → (code < 16) ⊎ (e ≤ code) → get_stream s'.streams code ≡ none))
negotiate_protocols-Finds backends s s' info empty h =
    let (e, ranges) = negotiate_protocols-Ranges backends s s' info empty h in
    (
      e,
      (
        λ code lo hi. get_stream-inside 16 s'.streams e code ranges lo hi,
        λ code. Ranges-InRange 16 s'.streams e code ranges,
        λ code out. get_stream-outside 16 s'.streams e code ranges out,
      ),
    )

module _ (c : Primitives) (r : Rlp) where
  -- a code that is no ping, no pong and no disconnect
  passed_on :
      (s : Session) (code : ℕ) (buf : Bytes)
      → (code ≡ 0) ⊎ (3 < code)
      → recv_msg c r s code buf ≡ handle_stream_message c s code buf
  unfolding recv_msg
  passed_on s code buf out =
      let p2 : (code == 2) ≡ false = ground arith in
      let p3 : (code == 3) ≡ false = ground arith in
      let p1 : (code == 1) ≡ false = ground arith in rw (p2, p3, p1) refl

  handled :
      (s : Session) (code i : ℕ) (buf : Bytes)
      → get_stream s.streams code ≡ some i
      → ¬ (handle_stream_message c s code buf ≡ err panicked)
  unfolding handle_stream_message
  handled s code i buf e h =
      let p : handle_stream_message c s code buf
          ≡ ok (record s { streams = read_data_at i s.streams code buf }) =
        rw (handle_stream_message, e) refl in
      absurd (cc (p, h))

  -- On a session that was negotiated from one without streams there is an end of the codes, 16 or
  -- more, so that a message that is no ping, no pong and no disconnect makes the session panic
  -- exactly when its code is below 16 or from the end on.
  pub recv_msg-negotiate_protocols :
      (backends : List ProtocolSpec) (s s' : Session) (info : Info)
      → s.streams ≡ []
      → negotiate_protocols backends s info ≡ ok s'
      → (e : ℕ) × (16 ≤ e)
        × ((code : ℕ) (buf : Bytes)
            → (code ≡ 0) ⊎ (3 < code)
            → (recv_msg c r s' code buf ≡ err panicked) ↔ ((code < 16) ⊎ (e ≤ code)))
  unfolding handle_stream_message
  recv_msg-negotiate_protocols backends s s' info empty h =
      let (e, ranges) = negotiate_protocols-Ranges backends s s' info empty h in
      (
        e,
        Ranges-le 16 s'.streams e ranges,
        λ code buf other. (
          λ p. elim (lt_or_le code 16) [
            | inl lo ↦ inl lo
            | inr lo ↦ elim (lt_or_le code e) [
              | inr hi ↦ inr hi
              | inl hi ↦
                  let (i, q, f) = get_stream-inside 16 s'.streams e code ranges lo hi in
                  absurd (handled s' code i buf f.0 (sym (passed_on s' code buf other) ∙ p))
            ]
          ],
          λ out.
              passed_on s' code buf other
              ∙ rw (handle_stream_message, get_stream-outside 16 s'.streams e code ranges out) refl,
        ),
      )

  get_elem?-read_data_at :
      (i : ℕ) (p : Stream) (ps : List Stream) (code : ℕ) (buf : Bytes)
      → get_elem? ps i ≡ some p
      → get_elem? (read_data_at i ps code buf) i ≡ some (read_data p code buf)
  unfolding read_data_at
  get_elem?-read_data_at i p [] code buf h = cc
  get_elem?-read_data_at zero p (q ∷ ps) code buf h =
      ap (λ t. some (read_data t code buf)) (some_inj h)
  get_elem?-read_data_at (suc i) p (q ∷ ps) code buf h = get_elem?-read_data_at i p ps code buf h

  others :
      (i : ℕ) (ps : List Stream) (code : ℕ) (buf : Bytes) (j : ℕ)
      → ¬ (j ≡ i)
      → get_elem? (read_data_at i ps code buf) j ≡ get_elem? ps j
  unfolding read_data_at
  others i [] code buf j ne = refl
  others zero (q ∷ ps) code buf zero ne = absurd (ne refl)
  others zero (q ∷ ps) code buf (suc j) ne = refl
  others (suc i) (q ∷ ps) code buf zero ne = refl
  others (suc i) (q ∷ ps) code buf (suc j) ne = others i ps code buf j (λ e. ne (ap suc e))

  -- A message with a code from 16 on that is in the range of the stream that getStream finds goes
  -- to that stream, and another stream is as before.
  pub recv_msg-Finds :
      (s : Session) (code i : ℕ) (p : Stream) (buf : Bytes) (j : ℕ)
      → 16 ≤ code
      → Finds s.streams code i p
      → ¬ (j ≡ i)
      → (s' : Session) × ((recv_msg c r s code buf ≡ ok s')
          × (get_elem? s'.streams i ≡ some (read_data p code buf))
          × (get_elem? s'.streams j ≡ get_elem? s.streams j))
  recv_msg-Finds s code i p buf j lo f ne = (
    record s { streams = read_data_at i s.streams code buf },
    (
      received s code i p buf lo f,
      get_elem?-read_data_at i p s.streams code buf f.1,
      others i s.streams code buf j ne,
    ),
  )
    where
      received :
          (s : Session) (code i : ℕ) (p : Stream) (buf : Bytes)
          → 16 ≤ code
          → Finds s.streams code i p
          → recv_msg c r s code buf ≡ ok (record s { streams = read_data_at i s.streams code buf })
      received s code i p buf lo f =
          let p2 : (code == 2) ≡ false = ground arith in
          let p3 : (code == 3) ≡ false = ground arith in
          let p1 : (code == 1) ≡ false = ground arith in
          unfold recv_msg handle_stream_message in rw (p2, p3, p1, handle_stream_message, f.0)
