-- ===== src/Rlpx/Frame/Wire.antt =====
-- What a frame consists of on the wire, and what reading it gives.
use go_devp2p.Prelude.{
  ℕ, zero, suc, ◌+◌, ◌≤◌, ◌≡◌, ap, sym, ◌∙◌, false, [], ◌++◌, append_assoc, append-nil, Bytes,
  IsBytes, length, length-append, take, drop, take-length, drop-length, ltb, le→ltb, if◌then◌else◌,
  ok, replicate, bytes_eq_refl, arith,
}
use go_devp2p.Rlpx.Frame.{
  Primitives, HalfConn, xor_stream, update_mac, update_mac_with_header, update_mac_impl, set_header,
  size_of, padding, read_full, read_code, content_of, write, read, max_uint24,
}
use go_devp2p.Rlpx.Frame.Write.{plain_body, body_state, body_bytes, write_body_lem}

pub take-append : (n : ℕ) (a b : Bytes) → length a ≡ n → take n (a ++ b) ≡ a
take-append n a b e = ap (λ k. take k (a ++ b)) (sym e) ∙ take-length a b

pub drop-append : (n : ℕ) (a b : Bytes) → length a ≡ n → drop n (a ++ b) ≡ b
drop-append n a b e = ap (λ k. drop k (a ++ b)) (sym e) ∙ drop-length a b

pub read_full-append : (n : ℕ) (a b : Bytes) → length a ≡ n → read_full n (a ++ b) ≡ ok (a, b)
unfolding read_full
read_full-append n a b e =
    let h : ltb (length (a ++ b)) n ≡ false =
      le→ltb (length (a ++ b)) n (omega (arith, length-append a b)) in
    rw (h, take-append n a b e, drop-append n a b e)

pub IsBytes-zeros : (n : ℕ) → IsBytes (replicate n 0)
IsBytes-zeros zero = tt
IsBytes-zeros (suc n) = (omega arith, IsBytes-zeros n)

module _ (c : Primitives) where
  -- The payload as it is sent, and the size of a frame's content.
  abbrev pub payload_of : HalfConn → Bytes → Bytes
  payload_of s buf = if s.snappy then c.snappy_encode buf else buf

  abbrev pub full_size_of : HalfConn → ℕ → Bytes → ℕ
  full_size_of s code buf = length (c.encode_code code) + length (payload_of s buf)

  -- The encrypted header, its MAC, and the state behind it.
  abbrev pub sent_header : HalfConn → ℕ → Bytes
  sent_header s n = xor_stream c s.position (take 16 (set_header n s.header))

  abbrev pub header_state : HalfConn → ℕ → HalfConn
  header_state s n = record s {
    position = s.position + 16;
    written = (update_mac_with_header c s.written (sent_header s n)).0;
    header = sent_header s n ++ drop 16 (set_header n s.header);
  }

  abbrev pub header_mac : HalfConn → ℕ → Bytes
  header_mac s n = (update_mac_with_header c s.written (sent_header s n)).1

  abbrev pub plain_of : HalfConn → ℕ → Bytes → Bytes
  plain_of s code buf =
      plain_body c (c.encode_code code) (payload_of s buf) (full_size_of s code buf)

  pub write_lem :
      (s : HalfConn) (code : ℕ) (buf : Bytes)
      → full_size_of s code buf ≤ max_uint24
      → write c s code buf
        ≡ ok (
          body_state c (header_state s (full_size_of s code buf)) (plain_of s code buf),
          (sent_header s (full_size_of s code buf) ++ header_mac s (full_size_of s code buf))
              ++ body_bytes c (header_state s (full_size_of s code buf)) (plain_of s code buf),
        )
  unfolding write
  write_lem s code buf le =
      let n = full_size_of s code buf in
      let h : ltb max_uint24 n ≡ false = le→ltb max_uint24 n le in
      rw h (
        ap ok (
          write_body_lem c (header_state s n) (sent_header s n ++ header_mac s n)
            (c.encode_code code) (payload_of s buf) n))

  -- Reading a frame of the right sizes with the right MACs.
  module _ (g : HalfConn) (n : ℕ) (head mac1 body mac2 rest : Bytes) (head_size : length head ≡ 16)
      (mac1_size : length mac1 ≡ 16) (mac2_size : length mac2 ≡ 16)
      (body_size : length body ≡ n + padding n) where
    mac_of_header :
        update_mac_with_header c g.written (head ++ mac1) ≡ update_mac_with_header c g.written head
    unfolding update_mac_with_header
    mac_of_header =
        ap (λ t. update_mac_impl c g.written (c.digest g.written) t)
          (take-append 16 head mac1 head_size
            ∙ sym (ap (take 16) (sym (append-nil head)) ∙ take-append 16 head [] head_size))

    module _ (code : ℕ) (payload : Bytes) (size_ok : size_of (xor_stream c g.position head) ≡ ok n)
        (mac1_ok : (update_mac_with_header c g.written head).1 ≡ mac1)
        (mac2_ok : (update_mac c ((update_mac_with_header c g.written head).0 ++ body)).1 ≡ mac2)
        (code_ok : read_code (take n (xor_stream c (g.position + 16) body))
          ≡ ok (code, payload)) where
      pub read_lem :
          (content : Bytes)
          → content_of c g.snappy payload ≡ ok content
          → read c g ((head ++ mac1) ++ ((body ++ mac2) ++ rest))
            ≡ ok (
              code,
              content,
              record g {
                position = g.position + 16 + (n + padding n);
                written = (update_mac c ((update_mac_with_header c g.written head).0 ++ body)).0;
                header = mac2 ++ drop 16 (head ++ mac1);
              },
              rest,
            )
      unfolding read
      read_lem content content_ok =
          let e32 : length (head ++ mac1) ≡ 32 = omega (arith, length-append head mac1) in
          rw (
            read_full-append 32 (head ++ mac1) ((body ++ mac2) ++ rest) e32,
            mac_of_header,
            drop-append 16 head mac1 head_size,
            mac1_ok,
            bytes_eq_refl mac1,
            take-append 16 head mac1 head_size,
            size_ok,
            append_assoc body mac2 rest,
            read_full-append (n + padding n) body (mac2 ++ rest) body_size,
            read_full-append 16 mac2 rest mac2_size,
            mac2_ok,
            bytes_eq_refl mac2,
            code_ok,
            content_ok,
          )
