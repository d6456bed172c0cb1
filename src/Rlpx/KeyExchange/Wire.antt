-- ===== src/Rlpx/KeyExchange/Wire.antt =====
-- A message of the key exchange, in rlpx/handshake.go, written at one end and read at the other.
use mathlib.Core.Path.{ap₂}
use go_devp2p.Prelude.{
  ℕ, ◌+◌, ◌-◌, ◌^◌, ◌≤◌, ◌<◌, ◌≡◌, ap, sym, ◌∙◌, false, none, some, List, [], ◌∷◌, ◌++◌, append-nil,
  Bytes, be16, read_be16, read_be16-be16, u16, length, length-drop, take, drop, take_more,
  take-take, take-append-drop, replicate, le→ltb, lt→ltb, ok, arith,
}
use go_devp2p.Crypto.Recover.{Laws}
use go_devp2p.Rlpx.KeyExchange.{Suite, Conn, conn_read, conn_write, read_bytes, write_message}

-- What the exchange relies on, beside the laws of the curve: two keys share a secret of 32 bytes,
-- whichever end computes it; what is encrypted for a key is 113 bytes longer and is decrypted with
-- it and the same prefix; a key of 64 bytes, behind its format byte 4, gives its coordinates; and
-- zeros behind an RLP value are not read.
pub record SuiteLaws (s : Suite) : Type 0 where
  pub curve_laws : Laws s.curve
  pub shared_symmetric :
      (a b : s.curve.PrivateKey)
      → s.generate_shared a (s.curve.public_key b) ≡ s.generate_shared b (s.curve.public_key a)
  pub shared_size :
      (a : s.curve.PrivateKey) (p : s.curve.PublicKey) (t : Bytes)
      → s.generate_shared a p ≡ some t
      → length t ≡ 32
  pub decrypt_of_encrypt :
      (random : Bytes) (k : s.curve.PrivateKey) (m prefix e : Bytes)
      → s.encrypt random (s.curve.public_key k) m prefix ≡ some e
      → (length e ≡ length m + 113) × (s.decrypt k e prefix ≡ some m)
  pub marshal_flag : (p : s.curve.PublicKey) → s.curve.marshal p ≡ 4 ∷ drop 1 (s.curve.marshal p)
  pub point_of_marshal :
      (p : s.curve.PublicKey)
      → s.point (take 32 (drop 1 (s.curve.marshal p))) (drop 32 (drop 1 (s.curve.marshal p)))
        ≡ some p
  pub parse_padded :
      (v : s.rlp.Value) (pad : ℕ) → s.rlp.parse (s.rlp.marshal v ++ replicate pad 0) ≡ some v

-- The connection with these pieces still to be read.
abbrev pub bringing : List Bytes → Conn → Conn
bringing pieces conn = record conn { incoming = pieces }

-- The connection, still open, with these pieces to be read and these written.
abbrev pub open_conn : List Bytes → List Bytes → Conn
open_conn pieces sent = record { incoming = pieces; written = sent; broken = false }

-- A whole piece, and a part of one.
conn_read-whole :
    (piece : Bytes) (n : ℕ) (rest : List Bytes) (conn : Conn)
    → length piece ≡ n
    → conn_read n (bringing (piece ∷ rest) conn) ≡ ok (piece, bringing rest conn)
unfolding conn_read
conn_read-whole piece n rest conn h =
    let none_left : n - length piece ≡ 0 = omega arith in
    let whole : take n piece ≡ piece = take_more piece n (omega arith) in
    rw (le→ltb n (length piece) (omega arith), none_left, whole)
      (ap (λ b. ok (b, bringing rest conn)) (append-nil piece))

conn_read-part :
    (piece : Bytes) (n : ℕ) (rest : List Bytes) (conn : Conn)
    → n < length piece
    → conn_read n (bringing (piece ∷ rest) conn)
      ≡ ok (take n piece, bringing (drop n piece ∷ rest) conn)
unfolding conn_read
conn_read-part piece n rest conn h =
    let none_left : n - length piece ≡ 0 = omega arith in
    rw (lt→ltb n (length piece) h, none_left)
      (ap (λ b. ok (b, bringing (drop n piece ∷ rest) conn)) (append-nil (take n piece)))

module _ (s : Suite) where
  -- A packet of a size that writeMessage can announce, and that is not taken for one from before
  -- EIP-8.
  pub record IsPacket (k : s.curve.PrivateKey) (plain_size : ℕ) (buf packet : Bytes) : Type 0 where
    pub random : Bytes
    pub enc : Bytes
    pub sealed : s.encrypt random (s.curve.public_key k) buf (be16 (length buf + 113)) ≡ some enc
    pub parts : packet ≡ be16 (length buf + 113) ++ enc
    pub small : length buf + 113 < 2 ^ 16
    pub large : plain_size ≤ length buf + 113
    pub not_plain : s.decrypt k (take plain_size packet) [] ≡ none

module _ (s : Suite) (l : SuiteLaws s) where
  module _ (k : s.curve.PrivateKey) (plain_size : ℕ) (buf packet : Bytes) (two : 2 ≤ plain_size)
      (p : IsPacket s k plain_size buf packet) where
    abbrev size : ℕ
    size = length buf + 113

    enc_size : length p.enc ≡ size
    enc_size = (l.decrypt_of_encrypt p.random k buf (be16 size) p.enc p.sealed).0

    packet_size : length packet ≡ size + 2
    unfolding be16
    packet_size = ap length p.parts ∙ omega (arith, enc_size)

    prefix_lem : take 2 packet ≡ be16 size
    unfolding be16
    prefix_lem = ap (take 2) p.parts

    rest_lem : drop 2 packet ≡ p.enc
    unfolding be16
    rest_lem = ap (drop 2) p.parts

    -- readBytes of a packet that arrives in one piece
    pub read_bytes-packet :
        (rest : List Bytes) (conn : Conn)
        → read_bytes s k plain_size (bringing (packet ∷ rest) conn)
          ≡ ok (packet, buf, false, bringing rest conn)
    unfolding read_bytes
    read_bytes-packet rest conn =
        let first = take plain_size packet in
        let part =
          conn_read-part packet plain_size rest conn (omega (arith, packet_size, p.large)) in
        let head : take 2 first ≡ be16 size = take-take 2 plain_size packet two ∙ prefix_lem in
        let announced : read_be16 (take 2 first) ≡ some size =
          ap read_be16 head ∙ read_be16-be16 size p.small in
        let enough = le→ltb size plain_size p.large in
        let more : length (drop plain_size packet) ≡ u16 (size - plain_size + 2) =
          length-drop plain_size packet ∙ omega (arith, packet_size, p.large, p.small, two) in
        let tail =
          conn_read-whole (drop plain_size packet) (u16 (size - plain_size + 2)) rest conn more in
        let whole : first ++ drop plain_size packet ≡ packet = take-append-drop plain_size packet in
        let body : s.decrypt k (drop 2 (first ++ drop plain_size packet)) (take 2 first)
            ≡ some buf =
          ap₂ (λ x y. s.decrypt k x y) (ap (drop 2) whole ∙ rest_lem) head
          ∙ (l.decrypt_of_encrypt p.random k buf (be16 size) p.enc p.sealed).1 in
        rw (read_bytes, part, p.not_plain, announced, enough, tail, body)
          (ap (λ x. ok (x, buf, false, bringing rest conn)) whole)

  -- writeMessage of a message whose packet this is
  pub write_message-packet :
      (k : s.curve.PrivateKey) (plain_size pad : ℕ) (message packet : Bytes)
      (pieces sent : List Bytes) (p : IsPacket s k plain_size (message ++ replicate pad 0) packet)
      → write_message s (s.curve.public_key k) message pad p.random (open_conn pieces sent)
        ≡ ok (packet, open_conn pieces (sent ++ packet ∷ []))
  unfolding write_message conn_write
  write_message-packet k plain_size pad message packet pieces sent p =
      let size = length (message ++ replicate pad 0) + 113 in
      let announced : u16 size ≡ size = omega (arith, p.small) in
      rw (write_message, announced, p.sealed)
        (ap (λ b. ok (b, open_conn pieces (sent ++ b ∷ []))) (sym p.parts))
