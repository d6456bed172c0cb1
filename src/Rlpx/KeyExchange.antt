-- ===== src/Rlpx/KeyExchange.antt =====
-- The key exchange of rlpx/handshake.go, and NodeIDToPubKey of enode/enode.go. A hash is the bytes
-- that were written to it; random bytes and keys are arguments.
pub mod Wire
pub mod Steps
pub mod Agree
use go_devp2p.Prelude.{
  ℕ, ◌+◌, ◌-◌, Bool, true, false, Option, none, some, List, [], ◌∷◌, ◌++◌, Bytes, be16, read_be16,
  u16, length, take, drop, replicate, ltb, ◌==◌, if◌then◌else◌, Result, ok, err, ◌>>=◌, ◌>>◌, guard,
  not, from_option,
}
use go_devp2p.Kademlia.Key.{xor}
use go_devp2p.Crypto.{Curve, CryptoError, sign, recover_pubkey, parse_public_key}
use go_devp2p.Rlp.{Rlp, CodecError, Decoded, parsed}
use go_devp2p.Rlpx.Messages.{
  AuthMsg, AuthResp, sig_len, pub_len, sha_len, marshal_auth, unmarshal_auth, marshal_resp,
  unmarshal_resp, decode_plain_auth, decode_plain_resp,
}

-- What the exchange is given: the curve, RLP, package ecies (Encrypt, of some random bytes, for a
-- key, of a message with a prefix that it vouches for; Decrypt; GenerateShared, of 32 bytes), and
-- the point with two coordinates, if it is on the curve.
pub record Suite : Type 1 where
  pub curve : Curve
  pub rlp : Rlp
  pub encrypt : Bytes → curve.PublicKey → Bytes → Bytes → Option Bytes
  pub decrypt : curve.PrivateKey → Bytes → Bytes → Option Bytes
  pub generate_shared : curve.PrivateKey → curve.PublicKey → Option Bytes
  pub point : Bytes → Bytes → Option curve.PublicKey

pub data HandshakeError : Type 0 where
  end_of_input not_sent underflow undecrypted unencrypted no_shared no_point key_missing :
      HandshakeError
  key_length : ℕ → HandshakeError
  undecodable : CodecError → HandshakeError
  crypto : CryptoError → HandshakeError
  out_of_range : HandshakeError

abbrev pub ecies_overhead : ℕ
ecies_overhead = 65 + 16 + 32

abbrev pub auth_msg_len : ℕ
auth_msg_len = sig_len + sha_len + pub_len + sha_len + 1

abbrev pub auth_resp_len : ℕ
auth_resp_len = pub_len + sha_len + 1

abbrev pub enc_auth_msg_len : ℕ
enc_auth_msg_len = auth_msg_len + ecies_overhead

abbrev pub enc_auth_resp_len : ℕ
enc_auth_resp_len = auth_resp_len + ecies_overhead

-- net.Conn: what arrives, in the pieces in which the network brings it, and what was written
pub record Conn : Type 0 where
  pub incoming : List Bytes
  pub written : List Bytes
  pub broken : Bool

-- `conn.Read(buf)`, of a buffer of `n` zeros: at most one piece
unfoldable pub conn_read : ℕ → Conn → Result HandshakeError (Bytes × Conn)
conn_read n conn = elim conn.incoming [
  | [] ↦ err end_of_input
  | piece ∷ rest ↦ ok (
    take n piece ++ replicate (n - length piece) 0,
    record conn { incoming = if ltb n (length piece) then drop n piece ∷ rest else rest },
  )
]

unfoldable pub conn_write : Bytes → Conn → Result HandshakeError Conn
conn_write b conn =
    if conn.broken then err not_sent else ok (record conn { written = conn.written ++ b ∷ [] })

abbrev pub lift_crypto {ℓ} : {A : Type ℓ} → Result CryptoError A → Result HandshakeError A
lift_crypto (ok x) = ok x
lift_crypto (err why) = err (crypto why)

abbrev pub lift_codec {ℓ} : {A : Type ℓ} → Decoded A → Result HandshakeError A
lift_codec (ok x) = ok x
lift_codec (err why) = err (undecodable why)

-- a message before it is read: new(authMsgV4) and new(authRespV4)
abbrev pub no_auth : AuthMsg
no_auth = record {
  got_plain = false;
  signature = [];
  initiator_pubkey = [];
  nonce = [];
  version = 0;
}

abbrev pub no_resp : AuthResp
no_resp = record { random_pubkey = []; nonce = []; version = 0 }

module _ (s : Suite) where
  open s use {curve, rlp, encrypt, decrypt, generate_shared, point}
  open curve use {PrivateKey, PublicKey, public_key, keccak, marshal}

  -- handshakeState, with the remote key of its connection
  pub record State : Type 0 where
    pub is_client : Bool
    pub remote : Option PublicKey
    pub init_nonce : Bytes
    pub resp_nonce : Bytes
    pub random_priv_key : Option PrivateKey
    pub remote_random_pub : Option PublicKey

  pub record Secrets : Type 0 where
    pub remote_id : PublicKey
    pub aes : Bytes
    pub mac : Bytes
    pub egress_mac : Bytes
    pub ingress_mac : Bytes

  -- NodeIDToPubKey
  unfoldable pub node_id_to_pub_key : Bytes → Result HandshakeError PublicKey
  node_id_to_pub_key buf = do
    guard (length buf == 64) (key_length (length buf))
    from_option no_point (point (take 32 buf) (drop 32 buf))

  -- handshakeConn.readBytes: the packet, what it decrypts to, and whether it is one from before EIP-8
  unfoldable pub read_bytes :
      PrivateKey → ℕ → Conn → Result HandshakeError (Bytes × Bytes × Bool × Conn)
  read_bytes local plain_size conn = do
    (buf, conn') ← conn_read plain_size conn
    elim (decrypt local buf []) [
      | some dec ↦ ok (buf, dec, true, conn')
      | none ↦ (do
        let prefix = take 2 buf
        size ← from_option out_of_range (read_be16 prefix)
        guard (not (ltb size plain_size)) underflow
        (buf2, conn'') ← conn_read (u16 (size - plain_size + 2)) conn'
        let whole = buf ++ buf2
        dec ← from_option undecrypted (decrypt local (drop 2 whole) prefix)
        ok (whole, dec, false, conn''))
    ]

  -- handshakeConn.readMessage, of an auth message and of a response
  unfoldable pub read_auth : PrivateKey → Conn → Result HandshakeError (Bytes × AuthMsg × Conn)
  read_auth local conn = do
    (buf, dec, plain, conn') ← read_bytes local enc_auth_msg_len conn
    if plain
        then ok (buf, decode_plain_auth no_auth dec, conn')
        else (do m ← lift_codec (parsed rlp dec >>= unmarshal_auth rlp false); ok (buf, m, conn'))

  unfoldable pub read_resp : PrivateKey → Conn → Result HandshakeError (Bytes × AuthResp × Conn)
  read_resp local conn = do
    (buf, dec, plain, conn') ← read_bytes local enc_auth_resp_len conn
    if plain
        then ok (buf, decode_plain_resp no_resp dec, conn')
        else (do m ← lift_codec (parsed rlp dec >>= unmarshal_resp rlp); ok (buf, m, conn'))

  -- handshakeConn.writeMessage, of a message that MarshalRLP has written, with a padding of `pad`
  -- zeros and random bytes for the encryption
  unfoldable pub write_message :
      PublicKey → Bytes → ℕ → Bytes → Conn → Result HandshakeError (Bytes × Conn)
  write_message remote message pad random conn = do
    let buf = message ++ replicate pad 0
    let prefix = be16 (u16 (length buf + ecies_overhead))
    enc ← from_option unencrypted (encrypt random remote buf prefix)
    let packet = prefix ++ enc
    conn' ← conn_write packet conn
    ok (packet, conn')

  -- handshakeState.staticSharedSecret
  unfoldable pub static_shared_secret : PrivateKey → State → Result HandshakeError Bytes
  static_shared_secret prv h = do
    remote ← from_option key_missing h.remote
    from_option no_shared (generate_shared prv remote)

  -- handshakeState.makeAuthMsg, with a random nonce and key
  unfoldable pub make_auth_msg :
      PrivateKey → Bytes → PrivateKey → State → Result HandshakeError (AuthMsg × State)
  make_auth_msg prv nonce random h = do
    let h' = record h { init_nonce = nonce; random_priv_key = some random }
    token ← static_shared_secret prv h'
    signed ← from_option out_of_range (xor token nonce)
    signature ← lift_crypto (sign curve random signed)
    ok (
      record {
        got_plain = false;
        signature = signature;
        initiator_pubkey = drop 1 (marshal (public_key prv));
        nonce = nonce;
        version = 4;
      },
      h',
    )

  -- importPublicKey
  unfoldable pub import_public_key : Bytes → Result HandshakeError PublicKey
  import_public_key key =
      if length key == 64
      then lift_crypto (parse_public_key curve (4 ∷ key))
      else if length key == 65
      then lift_crypto (parse_public_key curve key)
      else err (key_length (length key))

  -- handshakeState.handleAuthMsg, with a random key, which is used if there is none before
  unfoldable pub handle_auth_msg :
      AuthMsg → PrivateKey → PrivateKey → State → Result HandshakeError State
  handle_auth_msg msg prv random h = do
    remote ← node_id_to_pub_key msg.initiator_pubkey
    let h' = record h {
      init_nonce = msg.nonce;
      remote = some remote;
      random_priv_key = elim h.random_priv_key [ none ↦ some random | some k ↦ some k ];
    }
    token ← static_shared_secret prv h'
    signed ← from_option out_of_range (xor token msg.nonce)
    pub_random ← lift_crypto (recover_pubkey curve msg.signature signed)
    ok (record h' {
      remote_random_pub = elim (import_public_key (marshal pub_random)) [
        | ok k ↦ some k
        | err _ ↦ none
      ];
    })

  -- handshakeState.makeAuthResp, with a random nonce
  unfoldable pub make_auth_resp : Bytes → State → Result HandshakeError (AuthResp × State)
  make_auth_resp nonce h = do
    random ← from_option key_missing h.random_priv_key
    ok (
      record { random_pubkey = drop 1 (marshal (public_key random)); nonce = nonce; version = 4 },
      record h { resp_nonce = nonce },
    )

  -- handshakeState.handleAuthResp
  unfoldable pub handle_auth_resp : AuthResp → State → Result HandshakeError State
  handle_auth_resp msg h = do
    k ← import_public_key msg.random_pubkey
    ok (record h { resp_nonce = msg.nonce; remote_random_pub = some k })

  -- handshakeState.Secrets
  unfoldable pub secrets : Bytes → Bytes → State → Result HandshakeError Secrets
  secrets auth auth_resp h = do
    random ← from_option key_missing h.random_priv_key
    remote_random ← from_option key_missing h.remote_random_pub
    remote ← from_option key_missing h.remote
    ecdhe ← from_option no_shared (generate_shared random remote_random)
    let shared = keccak (ecdhe ++ keccak (h.resp_nonce ++ h.init_nonce))
    let aes = keccak (ecdhe ++ shared)
    let mac = keccak (ecdhe ++ aes)
    from_resp ← from_option out_of_range (xor mac h.resp_nonce)
    from_init ← from_option out_of_range (xor mac h.init_nonce)
    let mac1 = from_resp ++ auth
    let mac2 = from_init ++ auth_resp
    ok (record {
      remote_id = remote;
      aes = aes;
      mac = mac;
      egress_mac = if h.is_client then mac1 else mac2;
      ingress_mac = if h.is_client then mac2 else mac1;
    })

  -- handshakeServer behind the auth message, where an error makes it return no error and no secrets
  unfoldable pub answer_auth :
      PrivateKey
      → PrivateKey
      → Bytes
      → ℕ
      → Bytes
      → State
      → Bytes
      → AuthMsg
      → Conn
      → Result HandshakeError (Option Secrets × Conn)
  answer_auth prv random nonce pad bytes h auth_packet auth_msg conn =
      elim (handle_auth_msg auth_msg prv random h) [
        | err _ ↦ ok (none, conn)
        | ok h1 ↦ elim (make_auth_resp nonce h1) [
          | err _ ↦ ok (none, conn)
          | ok (auth_resp, h2) ↦ elim h2.remote [
            | none ↦ err key_missing
            | some remote ↦
                elim (write_message remote (rlp.marshal (marshal_resp rlp auth_resp)) pad bytes
                  conn) [
                    | err _ ↦ ok (none, conn)
                    | ok (auth_resp_packet, conn') ↦ (do
                      found ← secrets auth_packet auth_resp_packet h2
                      ok (some found, conn'))
                  ]
          ]
        ]
      ]

  -- handshakeServer
  unfoldable pub handshake_server :
      PrivateKey
      → PrivateKey
      → Bytes
      → ℕ
      → Bytes
      → Conn
      → Result HandshakeError (Option Secrets × Conn)
  handshake_server prv random nonce pad bytes conn = do
    let h : State = record {
      is_client = false;
      remote = none;
      init_nonce = [];
      resp_nonce = [];
      random_priv_key = none;
      remote_random_pub = none;
    }
    (auth_packet, auth_msg, conn') ← read_auth prv conn
    answer_auth prv random nonce pad bytes h auth_packet auth_msg conn'

  -- handshakeClient up to the wait for the response, and behind it
  unfoldable pub handshake_client_begin :
      PrivateKey
      → PublicKey
      → PrivateKey
      → Bytes
      → ℕ
      → Bytes
      → Conn
      → Result HandshakeError (Bytes × State × Conn)
  handshake_client_begin prv remote random nonce pad bytes conn = do
    let h : State = record {
      is_client = true;
      remote = some remote;
      init_nonce = [];
      resp_nonce = [];
      random_priv_key = none;
      remote_random_pub = none;
    }
    (auth_msg, h') ← make_auth_msg prv nonce random h
    (auth_packet, conn') ←
        write_message remote (rlp.marshal (marshal_auth rlp auth_msg)) pad bytes conn
    ok (auth_packet, h', conn')

  unfoldable pub handshake_client_end :
      PrivateKey → Bytes → State → Conn → Result HandshakeError (Secrets × Conn)
  handshake_client_end prv auth_packet h conn = do
    (auth_resp_packet, auth_resp, conn') ← read_resp prv conn
    h' ← handle_auth_resp auth_resp h
    found ← secrets auth_packet auth_resp_packet h'
    ok (found, conn')
