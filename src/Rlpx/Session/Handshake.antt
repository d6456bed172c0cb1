-- ===== src/Rlpx/Session/Handshake.antt =====
-- The protocol handshake of rlpx/handshake.go, from the frame that one end writes to what the other
-- end knows.
use go_devp2p.Prelude.{
  ℕ, ◌≤◌, ◌≡◌, ap, Bool, false, ◌++◌, Bytes, length, ltb, le→ltb, all_zero, bytes_eq_refl,
  if◌then◌else◌, Result, ok, err,
}
use go_devp2p.Rlp.{Rlp}
use go_devp2p.Rlpx.Messages.{Info, marshal_info}
use go_devp2p.Rlpx.Messages.RoundTrip.{InfoFits, unmarshal_info-marshal_info}
use go_devp2p.Rlpx.Frame.{Primitives, HalfConn, write}
use go_devp2p.Rlpx.Frame.Stream.{Laws}
use go_devp2p.Rlpx.Frame.RoundTrip.{IsHeader, Fits, read-write}
use go_devp2p.Rlpx.Session.{
  Session, SessionError, stream_closed, write_raw_msg, set_snappy, read_protocol_handshake,
  do_protocol_handshake, info_of, handshake_msg, snappy_protocol_version,
  base_protocol_max_msg_size,
}

module _ (c : Primitives) (l : Laws c) (r : Rlp) where
  -- The information of a peer, as the handshake takes it.
  pub record InfoGood (i : Info) : Type 0 where
    pub fits : InfoFits i
    pub not_zero : all_zero i.id ≡ false
    pub small : length (marshal_info r i) ≤ base_protocol_max_msg_size

  -- The session can write its information in a frame.
  abbrev pub CanWrite : Session → Info → Type 0
  CanWrite s i =
      (s.closed ≡ false)
      × IsHeader c l s.half_out.header
      × Fits c l s.half_out handshake_msg (marshal_info r i)

  write_raw_msg-ok :
      (s : Session) (code : ℕ) (buf : Bytes) (half : HalfConn) (out : Bytes)
      → s.closed ≡ false
      → write c s.half_out code buf ≡ ok (half, out)
      → write_raw_msg c s code buf ≡ ok (record s { half_out = half; sent = s.sent ++ out })
  unfolding write_raw_msg
  write_raw_msg-ok s code buf half out o w =
      let f : Bool → Result SessionError Session = λ b.
        if b then err stream_closed else ok (record s { half_out = half; sent = s.sent ++ out }) in
      let p : f s.closed ≡ f false = ap f o in rw (write_raw_msg, w) p

  read_protocol_handshake-marshal_info :
      (i : Info)
      → InfoGood i
      → read_protocol_handshake c r i.id handshake_msg (marshal_info r i) ≡ ok i
  unfolding read_protocol_handshake info_of
  read_protocol_handshake-marshal_info i g = rw (
    le→ltb 2048 (length (marshal_info r i)) g.small,
    unmarshal_info-marshal_info r i g.fits,
    g.not_zero,
    bytes_eq_refl i.id,
  )

  -- What the handshake does to the state, with the connection's new halves.
  abbrev pub shaken : Session → Info → HalfConn → HalfConn → Bytes → Session
  shaken s peer half_in half_out out =
      let s2 : Session = record s {
        half_in = half_in;
        half_out = half_out;
        sent = s.sent ++ out;
      } in
      if ltb peer.version snappy_protocol_version then s2 else set_snappy s2

  -- The protocol handshake of one session succeeds on the frame that another session writes, with
  -- the information of that session, leaves the input behind it and keeps the two ends in
  -- agreement, with snappy on from version 5. The halves agree before but for the header buffer,
  -- both sessions are open and can write their information in a frame, the information is of the
  -- sizes of the protocol and has at most 2048 bytes, and its identifier is the expected one and
  -- not zero. The primitives have their laws.
  pub do_protocol_handshake-write_raw_msg :
      (a b : Session) (ia ib : Info) (other rest : Bytes)
      → InfoGood ia
      → CanWrite a ia
      → CanWrite b ib
      → b.half_in ≡ record (a.half_out) { header = other }
      → (half : HalfConn) × (out : Bytes) × (other' : Bytes) × (half_b : HalfConn) × (out_b : Bytes)
        × ((write_raw_msg c a handshake_msg (marshal_info r ia)
              ≡ ok (record a { half_out = half; sent = a.sent ++ out }))
            × (do_protocol_handshake c r ia.id b ib (out ++ rest)
                ≡ ok (ia, shaken b ia (record half { header = other' }) half_b out_b, rest)))
  unfolding do_protocol_handshake
  do_protocol_handshake-write_raw_msg a b ia ib other rest g (oa, ha, fa) (ob, hb, fb) e =
      let (half, other', out, (w, (hd, rd))) =
        read-write c l a.half_out other 0 (marshal_info r ia) rest ha fa in
      let (half_b, other_b, out_b, (wb, (hdb, rdb))) =
        read-write c l b.half_out other 0 (marshal_info r ib) rest hb fb in
      (
        half,
        out,
        other',
        half_b,
        out_b,
        (
          write_raw_msg-ok a 0 (marshal_info r ia) half out oa w,
          rw (
            write_raw_msg-ok b 0 (marshal_info r ib) half_b out_b ob wb,
            e,
            rd,
            read_protocol_handshake-marshal_info ia g,
          ),
        ),
      )
