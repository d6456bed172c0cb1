-- ===== src/Rlpx/KeyExchange/Steps.antt =====
-- The steps of the key exchange of rlpx/handshake.go, at two ends that follow it.
use go_devp2p.Prelude.{
  ℕ, ◌≡◌, refl, sym, ◌∙◌, false, List, ◌∷◌, ◌++◌, Bytes, length, length-drop, drop, replicate, ok,
  arith,
}
use go_devp2p.Crypto.{parse_public_key}
use go_devp2p.Rlpx.Messages.{AuthMsg, AuthResp, marshal_auth, marshal_resp}
use go_devp2p.Rlpx.Messages.RoundTrip.{unmarshal_auth-marshal_auth, unmarshal_resp-marshal_resp}
use go_devp2p.Rlpx.KeyExchange.{
  Suite, Conn, enc_auth_msg_len, enc_auth_resp_len, read_auth, read_resp, node_id_to_pub_key,
  import_public_key,
}
use go_devp2p.Rlpx.KeyExchange.Wire.{SuiteLaws, IsPacket, bringing, read_bytes-packet}

module _ (s : Suite) (l : SuiteLaws s) where
  -- A public key without its format byte.
  abbrev pub node_id : s.curve.PublicKey → Bytes
  node_id p = drop 1 (s.curve.marshal p)

  pub length-node_id : (p : s.curve.PublicKey) → length (node_id p) ≡ 64
  length-node_id p = length-drop 1 (s.curve.marshal p) ∙ omega (arith, l.curve_laws.marshal_size p)

  pub node_id_to_pub_key-node_id : (p : s.curve.PublicKey) → node_id_to_pub_key s (node_id p) ≡ ok p
  unfolding node_id_to_pub_key
  node_id_to_pub_key-node_id p =
      rw (node_id_to_pub_key, length-node_id p, l.point_of_marshal p) refl

  -- importPublicKey, with the format byte and without it
  pub import_public_key-marshal :
      (p : s.curve.PublicKey) → import_public_key s (s.curve.marshal p) ≡ ok p
  unfolding import_public_key parse_public_key
  import_public_key-marshal p =
      rw (import_public_key, l.curve_laws.marshal_size p, l.curve_laws.unmarshal_of_marshal p) refl

  pub import_public_key-node_id : (p : s.curve.PublicKey) → import_public_key s (node_id p) ≡ ok p
  unfolding import_public_key parse_public_key
  import_public_key-node_id p =
      rw
        (
          import_public_key,
          length-node_id p,
          sym (l.marshal_flag p),
          l.curve_laws.unmarshal_of_marshal p,
        )
        refl

  -- The two messages.
  abbrev pub auth_of : s.curve.PublicKey → Bytes → Bytes → AuthMsg
  auth_of p signature nonce = record {
    got_plain = false;
    signature = signature;
    initiator_pubkey = node_id p;
    nonce = nonce;
    version = 4;
  }

  abbrev pub resp_of : s.curve.PublicKey → Bytes → AuthResp
  resp_of p nonce = record { random_pubkey = node_id p; nonce = nonce; version = 4 }

  -- A message that is written is read.
  pub read_auth-packet :
      (k : s.curve.PrivateKey) (p : s.curve.PublicKey) (signature nonce packet : Bytes) (pad : ℕ)
      (rest : List Bytes) (conn : Conn)
      → IsPacket s k enc_auth_msg_len
          (s.rlp.marshal (marshal_auth s.rlp (auth_of p signature nonce)) ++ replicate pad 0)
          packet
      → length signature ≡ 65
      → length nonce ≡ 32
      → read_auth s k (bringing (packet ∷ rest) conn)
        ≡ ok (packet, auth_of p signature nonce, bringing rest conn)
  unfolding read_auth
  read_auth-packet k p signature nonce packet pad rest conn is hs hn =
      let m = auth_of p signature nonce in
      let buf = s.rlp.marshal (marshal_auth s.rlp m) ++ replicate pad 0 in
      rw
        (
          read_auth,
          read_bytes-packet s l k enc_auth_msg_len buf packet (omega arith) is rest conn,
          l.parse_padded (marshal_auth s.rlp m) pad,
          unmarshal_auth-marshal_auth s.rlp m hs (length-node_id p) hn (omega arith),
        )
        refl

  pub read_resp-packet :
      (k : s.curve.PrivateKey) (p : s.curve.PublicKey) (nonce packet : Bytes) (pad : ℕ)
      (rest : List Bytes) (conn : Conn)
      → IsPacket s k enc_auth_resp_len
          (s.rlp.marshal (marshal_resp s.rlp (resp_of p nonce)) ++ replicate pad 0)
          packet
      → length nonce ≡ 32
      → read_resp s k (bringing (packet ∷ rest) conn)
        ≡ ok (packet, resp_of p nonce, bringing rest conn)
  unfolding read_resp
  read_resp-packet k p nonce packet pad rest conn is hn =
      let m = resp_of p nonce in
      let buf = s.rlp.marshal (marshal_resp s.rlp m) ++ replicate pad 0 in
      rw
        (
          read_resp,
          read_bytes-packet s l k enc_auth_resp_len buf packet (omega arith) is rest conn,
          l.parse_padded (marshal_resp s.rlp m) pad,
          unmarshal_resp-marshal_resp s.rlp m (length-node_id p) hn (omega arith),
        )
        refl
