-- ===== src/Discv4/Packet/RoundTrip.antt =====
-- decodePacket of discovery/discv4.go on what encodePacket makes.
use go_devp2p.Prelude.{
  ℕ, ◌+◌, ◌-◌, ◌≡◌, ◌<◌, false, le→ltb, refl, ap, sym, ◌∙◌, [], ◌∷◌, ◌++◌, append_assoc, Bytes,
  bytes_eq_refl, length, length-append, take, drop, drop_whole, take_whole, take_more, replicate,
  ok, ltb, arith,
}
use mathlib.Core.Path.{ap₂}
use go_devp2p.Crypto.{Curve, sign, recover_pubkey}
use go_devp2p.Crypto.Recover.{Laws, recover_pubkey-sign}
use go_devp2p.Discv4.Packet.{copy_at, decode_packet, encode_packet}

-- A copy into space of its own size puts the source there.
copy_at-whole :
    (n : ℕ) (before space after src : Bytes)
    → length before ≡ n
    → length space ≡ length src
    → copy_at n src (before ++ (space ++ after)) ≡ before ++ (src ++ after)
unfolding copy_at
copy_at-whole n before space after src m h =
    let whole = before ++ (space ++ after) in
    let size : length whole ≡ n + (length space + length after) =
      length-append before (space ++ after) ∙ omega (arith, length-append space after, m) in
    let rest : drop (n + length src) whole ≡ after =
      ap (drop (n + length src)) (sym (append_assoc before space after))
      ∙ drop_whole (before ++ space) (n + length src)
          (length-append before space ∙ omega (arith, m, h)) after in
    rw
      (
        take_whole before n m (space ++ after),
        rest,
        take_more src (length whole - n) (omega (arith, size, h)),
      )
      refl

module _ (c : Curve) (l : Laws c) where
  -- A packet as its parts: a digest, a signature, and the signed data.
  encode_packet-parts :
      (k : c.PrivateKey) (code : ℕ) (payload sig : Bytes)
      → length sig ≡ 65
      → sign c k (c.keccak (code ∷ payload)) ≡ ok sig
      → encode_packet c k code payload
        ≡ ok (c.keccak (sig ++ code ∷ payload) ++ (sig ++ code ∷ payload))
  unfolding encode_packet
  encode_packet-parts k code payload sig size made =
      let body = code ∷ payload in
      let hash = c.keccak (sig ++ body) in
      let signed : copy_at 32 sig (replicate 97 0 ++ body) ≡ replicate 32 0 ++ (sig ++ body) =
        copy_at-whole 32 (replicate 32 0) (replicate 65 0) body sig refl (sym size) in
      let hashed : copy_at 0 hash (replicate 32 0 ++ (sig ++ body)) ≡ hash ++ (sig ++ body) =
        copy_at-whole 0 [] (replicate 32 0) (sig ++ body) hash refl
          (sym (l.keccak_size (sig ++ body))) in
      rw (made, signed, hashed) refl

  decode_packet-parts :
      (k : c.PrivateKey) (body sig : Bytes)
      → 0 < length body
      → length sig ≡ 65
      → recover_pubkey c sig (c.keccak body) ≡ ok (c.public_key k)
      → decode_packet c (c.keccak (sig ++ body) ++ (sig ++ body))
        ≡ ok (c.keccak (sig ++ body), body, c.marshal (c.public_key k))
  unfolding decode_packet
  decode_packet-parts k body sig some_body size back =
      let hash = c.keccak (sig ++ body) in
      let whole = hash ++ (sig ++ body) in
      let long : ltb (length whole) 98 ≡ false = le→ltb (length whole) 98 (
        omega (
          arith,
          length-append hash (sig ++ body),
          length-append sig body,
          l.keccak_size (sig ++ body),
          size,
        )) in
      let tail : drop 32 whole ≡ sig ++ body =
        drop_whole hash 32 (l.keccak_size (sig ++ body)) (sig ++ body) in
      let front : take 32 whole ≡ hash =
        take_whole hash 32 (l.keccak_size (sig ++ body)) (sig ++ body) in
      let sigpart : take 65 (sig ++ body) ≡ sig = take_whole sig 65 size body in
      let signed : drop 97 whole ≡ body =
        ap (drop 97) (sym (append_assoc hash sig body))
        ∙ drop_whole (hash ++ sig) 97
            (length-append hash sig ∙ omega (arith, l.keccak_size (sig ++ body), size)) body in
      rw (long, tail, front, sigpart, signed, bytes_eq_refl hash, back)
        (ap₂ (λ m d. ok (m, d, c.marshal (c.public_key k))) front signed)

  -- Where the signature of the code and the message is made, encodePacket succeeds, and
  -- decodePacket takes what it makes and yields the first 32 bytes of the packet, the code and the
  -- message, and the marshalled key of the sender. The primitives have their laws.
  pub decode_packet-encode_packet :
      (k : c.PrivateKey) (code : ℕ) (payload sig : Bytes)
      → sign c k (c.keccak (code ∷ payload)) ≡ ok sig
      → (packet : Bytes) × (encode_packet c k code payload ≡ ok packet)
        × (decode_packet c packet ≡ ok (take 32 packet, code ∷ payload, c.marshal (c.public_key k)))
  decode_packet-encode_packet k code payload sig made =
      let body = code ∷ payload in
      let (size, back) = recover_pubkey-sign c l k (c.keccak body) sig made in
      let front =
        take_whole (c.keccak (sig ++ body)) 32 (l.keccak_size (sig ++ body)) (sig ++ body) in
      (
        c.keccak (sig ++ body) ++ (sig ++ body),
        encode_packet-parts k code payload sig size made,
        rw front (decode_packet-parts k body sig (omega arith) size back),
      )
