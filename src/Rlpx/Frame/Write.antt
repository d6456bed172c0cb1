-- ===== src/Rlpx/Frame/Write.antt =====
-- What a frame is made of.
use go_devp2p.Prelude.{
  ℕ, ◌+◌, ◌-◌, ◌%◌, ◌≡◌, ap, sym, ◌∙◌, inl, inr, ◌++◌, append_assoc, append-nil, Bytes, length,
  length-append, length-replicate, replicate, ltb, if◌then◌else◌, Bool-cases, arith,
}
use go_devp2p.Rlpx.Frame.{
  Primitives, HalfConn, xor_stream, update_mac, write_data, write_body, padding,
}
use go_devp2p.Rlpx.Frame.Stream.{xor_stream-append}

module _ (c : Primitives) where
  -- Data written in two parts is sent and hashed as if written in one.
  write_data-append :
      (s : HalfConn × Bytes) (a b : Bytes)
      → write_data c (write_data c s a) b ≡ write_data c s (a ++ b)
  unfolding write_data
  write_data-append (s, out) a b =
      let e = xor_stream-append c s.position a b in
      let p : s.position + length a + length b ≡ s.position + length (a ++ b) =
        omega (arith, length-append a b) in
      λ i. (
        record {
          snappy = s.snappy;
          position = p i;
          written =
              (append_assoc s.written (xor_stream c s.position a)
                    (xor_stream c (s.position + length a) b)
                  ∙ ap (λ t. s.written ++ t) (sym e))
                i;
          header = s.header;
        },
        (append_assoc out (xor_stream c s.position a) (xor_stream c (s.position + length a) b)
              ∙ ap (λ t. out ++ t) (sym e))
            i,
      )

  -- The plain text of the body: the code, the payload and the zeros up to a multiple of 16.
  abbrev pub plain_body : Bytes → Bytes → ℕ → Bytes
  plain_body ptype payload full_size = (ptype ++ payload) ++ replicate (padding full_size) 0

  pub length-plain_body :
      (ptype payload : Bytes) (full_size : ℕ)
      → full_size ≡ length ptype + length payload
      → length (plain_body ptype payload full_size) ≡ full_size + padding full_size
  length-plain_body ptype payload n h =
      length-append (ptype ++ payload) (replicate (padding n) 0)
      ∙ omega (arith, length-append ptype payload, length-replicate {A = ℕ} (padding n) 0)

  abbrev pub body_state : HalfConn → Bytes → HalfConn
  body_state s plain = record s {
    position = s.position + length plain;
    written = (update_mac c (s.written ++ xor_stream c s.position plain)).0;
  }

  abbrev pub body_bytes : HalfConn → Bytes → Bytes
  body_bytes s plain =
      xor_stream c s.position plain ++ (update_mac c (s.written ++ xor_stream c s.position plain)).1

  padded :
      (s : HalfConn × Bytes) (full_size : ℕ)
      → (if ltb 0 (full_size % 16) then write_data c s (replicate (16 - full_size % 16) 0) else s)
        ≡ write_data c s (replicate (padding full_size) 0)
  unfolding padding write_data xor_stream
  padded (s, out) n = elim (Bool-cases (ltb 0 (n % 16))) [
    | inl h ↦ rw h
    | inr h ↦
        let e : s.position + 0 ≡ s.position = omega arith in
        rw (h, e, append-nil s.written, append-nil out)
  ]

  -- the MAC over what is written, and what is sent
  abbrev pub with_mac : HalfConn × Bytes → HalfConn × Bytes
  with_mac s3 =
      let (written, mac) = update_mac c (s3.0).written in
      (record (s3.0) { written = written }, s3.1 ++ mac)

  with_mac_lem :
      (s : HalfConn) (out plain : Bytes)
      → with_mac (write_data c (s, out) plain) ≡ (body_state s plain, out ++ body_bytes s plain)
  unfolding write_data
  with_mac_lem s out plain =
      ap (λ t. (body_state s plain, t))
        (append_assoc out (xor_stream c s.position plain)
          (update_mac c (s.written ++ xor_stream c s.position plain)).1)

  pub write_body_lem :
      (s : HalfConn) (out ptype payload : Bytes) (full_size : ℕ)
      → write_body c (s, out) ptype payload full_size ≡ (
        body_state s (plain_body ptype payload full_size),
        out ++ body_bytes s (plain_body ptype payload full_size),
      )
  unfolding write_body
  write_body_lem s out ptype payload n =
      ap with_mac (
        padded (write_data c (write_data c (s, out) ptype) payload) n
        ∙ (ap (λ t. write_data c t (replicate (padding n) 0))
              (write_data-append (s, out) ptype payload)
            ∙ write_data-append (s, out) (ptype ++ payload) (replicate (padding n) 0)))
      ∙ with_mac_lem s out (plain_body ptype payload n)
