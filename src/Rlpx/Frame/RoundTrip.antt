-- ===== src/Rlpx/Frame/RoundTrip.antt =====
-- The frames of rlpx/session.go, written at one end and read at the other.
use go_devp2p.Prelude.{
  ℕ, suc, ◌+◌, ◌<◌, ◌≤◌, ◌≡◌, refl, ap, sym, ◌∙◌, inl, inr, true, ◌++◌, append_assoc, Bytes,
  IsBytes, length, length-append, length-take, length-drop, take, drop, ltb, le→ltb, ◌==◌, Result,
  ok, Bool-cases, All-append, replicate, arith,
}
use go_devp2p.Rlpx.Frame.{
  Primitives, HalfConn, FrameError, xor_stream, update_mac, set_header, size_of, padding, read_code,
  content_of, write, read, max_uint24,
}
use go_devp2p.Rlpx.Frame.Stream.{Laws, length-xor_stream, xor_stream_twice, IsBytes-xor_stream}
use go_devp2p.Rlpx.Frame.Mac
use go_devp2p.Rlpx.Frame.Write.{length-plain_body, body_state, body_bytes}
use go_devp2p.Rlpx.Frame.Wire.{
  take-append, IsBytes-zeros, payload_of, full_size_of, sent_header, header_state, header_mac,
  plain_of, write_lem, read_lem,
}

module _ (c : Primitives) where
  module _ (l : Laws c) where
    read_code-encode_code :
        (code : ℕ) (payload : Bytes)
        → code < 128
        → read_code (c.encode_code code ++ payload) ≡ ok (code, payload)
    unfolding read_code
    read_code-encode_code code payload lt = elim (Bool-cases (code == 0)) [
      | inl h ↦
          let e : code ≡ 0 = ground arith in
          let f : ℕ → Result FrameError (ℕ × Bytes) = λ k. ok (k, payload) in
          let r : f 0 ≡ f code = ap f (sym e) in
          rw (l.code_byte code lt, h, le→ltb (suc (length payload)) 0 (omega arith)) r
      | inr h ↦ let e : ltb code 128 ≡ true = ground arith in rw (l.code_byte code lt, h, e)
    ]

    content_of-payload_of :
        (s : HalfConn) (buf : Bytes) → content_of c s.snappy (payload_of c s buf) ≡ ok buf
    unfolding content_of
    content_of-payload_of s buf = elim (Bool-cases s.snappy) [
      | inl h ↦ rw (h, l.snappy_round buf)
      | inr h ↦ rw h
    ]

    IsBytes-encode_code : (code : ℕ) → code < 128 → IsBytes (c.encode_code code)
    IsBytes-encode_code code lt = elim (Bool-cases (code == 0)) [
      | inl h ↦ rw (l.code_byte code lt, h) (omega arith, tt)
      | inr h ↦ rw (l.code_byte code lt, h) (omega arith, tt)
    ]

    IsBytes-payload_of : (s : HalfConn) (buf : Bytes) → IsBytes buf → IsBytes (payload_of c s buf)
    IsBytes-payload_of s buf h = elim (Bool-cases s.snappy) [
      | inl e ↦ rw e (l.snappy_bytes buf h)
      | inr e ↦ rw e h
    ]

    IsBytes-plain_of :
        (s : HalfConn) (code : ℕ) (buf : Bytes)
        → code < 128
        → IsBytes buf
        → IsBytes (plain_of c s code buf)
    IsBytes-plain_of s code buf lt h =
        let a = c.encode_code code in
        let p = payload_of c s buf in
        All-append (λ b. b < 256) (a ++ p) (replicate (padding (full_size_of c s code buf)) 0)
          (All-append (λ b. b < 256) a p (IsBytes-encode_code code lt) (IsBytes-payload_of s buf h))
          (IsBytes-zeros (padding (full_size_of c s code buf)))

    -- The header buffer is 32 bytes.
    abbrev pub IsHeader : Bytes → Type 0
    IsHeader h = IsBytes h × (length h ≡ 32)

    -- What a frame takes: a small code, bytes, and a size of 24 bits.
    abbrev pub Fits : HalfConn → ℕ → Bytes → Type 0
    Fits s code buf = (code < 128) × IsBytes buf × (full_size_of c s code buf ≤ max_uint24)

    module _ (s : HalfConn) (other : Bytes) (code : ℕ) (buf : Bytes) (hd : IsHeader s.header)
        (fits : Fits s code buf) where
      abbrev pub after : HalfConn
      after = body_state c (header_state c s (full_size_of c s code buf)) (plain_of c s code buf)

      abbrev pub sent : Bytes
      sent =
          (sent_header c s (full_size_of c s code buf)
            ++ header_mac c s (full_size_of c s code buf))
          ++ body_bytes c (header_state c s (full_size_of c s code buf)) (plain_of c s code buf)

      -- The header the reader is left with.
      abbrev pub other_after : Bytes
      other_after =
          let n = full_size_of c s code buf in
          (update_mac c (
            (header_state c s n).written
            ++ xor_stream c (s.position + 16) (plain_of c s code buf))).1
          ++ drop 16 (sent_header c s n ++ header_mac c s n)

      length-take_header : length (take 16 (set_header (full_size_of c s code buf) s.header)) ≡ 16
      length-take_header =
          let n = full_size_of c s code buf in
          omega
            (arith, length-take 16 (set_header n s.header), Mac.length-set_header n s.header hd.1)

      length-sent_header : length (sent_header c s (full_size_of c s code buf)) ≡ 16
      length-sent_header =
          let n = full_size_of c s code buf in
          length-xor_stream c s.position (take 16 (set_header n s.header)) ∙ length-take_header

      size_of-sent_header :
          size_of (xor_stream c s.position (sent_header c s (full_size_of c s code buf)))
          ≡ ok (full_size_of c s code buf)
      size_of-sent_header =
          let n = full_size_of c s code buf in
          let h = set_header n s.header in
          let t : xor_stream c s.position (xor_stream c s.position (take 16 h)) ≡ take 16 h =
            xor_stream_twice c l s.position (take 16 h)
              (Mac.IsBytes-take 16 h (Mac.IsBytes-set_header n s.header hd.0)) in
          rw t (Mac.size_of-set_header n s.header fits.2)

      code_of-body :
          read_code (
            take (full_size_of c s code buf) (
              xor_stream c
                (s.position + 16)
                (xor_stream c (s.position + 16) (plain_of c s code buf))))
          ≡ ok (code, payload_of c s buf)
      code_of-body =
          let n = full_size_of c s code buf in
          let a = c.encode_code code ++ payload_of c s buf in
          rw
            (
              xor_stream_twice c l (s.position + 16) (plain_of c s code buf)
                  (IsBytes-plain_of s code buf fits.0 fits.1),
              take-append n a (replicate (padding n) 0)
                  (length-append (c.encode_code code) (payload_of c s buf)),
            )
            (read_code-encode_code code (payload_of c s buf) fits.0)

      pub write-sent : write c s code buf ≡ ok (after, sent)
      write-sent = write_lem c s code buf fits.2

      length-plain_of :
          length (plain_of c s code buf)
          ≡ full_size_of c s code buf + padding (full_size_of c s code buf)
      length-plain_of =
          length-plain_body c (c.encode_code code) (payload_of c s buf) (full_size_of c s code buf)
            refl

      pub read-sent :
          (rest : Bytes)
          → read c (record s { header = other }) (sent ++ rest)
            ≡ ok (code, buf, record after { header = other_after }, rest)
      read-sent rest =
          let n = full_size_of c s code buf in
          let head = sent_header c s n in
          let mac1 = header_mac c s n in
          let body = xor_stream c (s.position + 16) (plain_of c s code buf) in
          let mac2 = (update_mac c ((header_state c s n).written ++ body)).1 in
          let g : HalfConn = record s { header = other } in
          let f : ℕ → Result FrameError (ℕ × Bytes × HalfConn × Bytes) = λ k. ok (
            code,
            buf,
            record after { position = s.position + 16 + k; header = other_after },
            rest,
          ) in
          ap (read c g) (append_assoc (head ++ mac1) (body ++ mac2) rest)
          ∙ (read_lem c g n head mac1 body mac2 rest length-sent_header
                (Mac.length-update_mac_with_header c l s.written head)
                (Mac.length-update_mac c l ((header_state c s n).written ++ body))
                (length-xor_stream c (s.position + 16) (plain_of c s code buf) ∙ length-plain_of)
                code (payload_of c s buf) size_of-sent_header refl refl code_of-body buf
                (content_of-payload_of s buf)
              ∙ ap f (sym length-plain_of))

      IsHeader-after : IsHeader after.header
      IsHeader-after =
          let n = full_size_of c s code buf in
          let h = set_header n s.header in
          let e : length (sent_header c s n ++ drop 16 h) ≡ 32 = omega (
            arith,
            length-append (sent_header c s n) (drop 16 h),
            length-sent_header,
            length-drop 16 h,
            Mac.length-set_header n s.header hd.1,
          ) in
          (
            All-append (λ b. b < 256) (sent_header c s n) (drop 16 h)
                (IsBytes-xor_stream c l s.position (take 16 h)
                  (Mac.IsBytes-take 16 h (Mac.IsBytes-set_header n s.header hd.0)))
                (Mac.IsBytes-drop 16 h (Mac.IsBytes-set_header n s.header hd.0)),
            e,
          )

    -- A frame that one end writes is read by the other end, which agrees with it but for the header
    -- buffer, of 32 bytes: it gets the code and the content and leaves the input behind the frame,
    -- and the ends agree again and can go on. The code is below 128, the content consists of bytes,
    -- the size fits in 24 bits, and the primitives have their laws.
    pub read-write :
        (s : HalfConn) (other : Bytes) (code : ℕ) (buf rest : Bytes)
        → IsHeader s.header
        → Fits s code buf
        → (s' : HalfConn) × (other' : Bytes) × (out : Bytes) × ((write c s code buf ≡ ok (s', out))
            × (IsHeader s'.header
                × (read c (record s { header = other }) (out ++ rest)
                    ≡ ok (code, buf, record s' { header = other' }, rest))))
    read-write s other code buf rest hd fits = (
      after s other code buf hd fits,
      other_after s other code buf hd fits,
      sent s other code buf hd fits,
      (
        write-sent s other code buf hd fits,
        (IsHeader-after s other code buf hd fits, read-sent s other code buf hd fits rest),
      ),
    )
