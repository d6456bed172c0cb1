-- ===== src/Rlpx/KeyExchange/Agree.antt =====
-- The two ends of the key exchange of rlpx/handshake.go.
use go_devp2p.Prelude.{
  ℕ, ◌≡◌, refl, ◌∙◌, Bool, true, false, Option, none, some, [], ◌∷◌, ◌++◌, Bytes, length, replicate,
  ok, arith,
}
use go_devp2p.Kademlia.Key.{xor}
use go_devp2p.Kademlia.Key.Bounds.{xor_total}
use go_devp2p.Crypto.{sign}
use go_devp2p.Crypto.Recover.{recover_pubkey-sign}
use go_devp2p.Rlpx.Messages.{AuthMsg, AuthResp, marshal_auth, marshal_resp}
use go_devp2p.Rlpx.KeyExchange.{
  Suite, State, Secrets, enc_auth_msg_len, enc_auth_resp_len, static_shared_secret, make_auth_msg,
  handle_auth_msg, make_auth_resp, handle_auth_resp, secrets, answer_auth, handshake_server,
  handshake_client_begin, handshake_client_end,
}
use go_devp2p.Rlpx.KeyExchange.Wire.{SuiteLaws, IsPacket, open_conn, write_message-packet}
use go_devp2p.Rlpx.KeyExchange.Steps.{
  auth_of, resp_of, read_auth-packet, read_resp-packet, node_id_to_pub_key-node_id,
  import_public_key-node_id, import_public_key-marshal,
}

-- What two ends that follow the protocol put in: their keys, the client's first, then the keys made
-- for this exchange, the nonces, and the paddings.
pub record Exchange (s : Suite) : Type 0 where
  pub client : s.curve.PrivateKey
  pub server : s.curve.PrivateKey
  pub client_random : s.curve.PrivateKey
  pub server_random : s.curve.PrivateKey
  pub client_nonce : Bytes
  pub server_nonce : Bytes
  pub client_pad : ℕ
  pub server_pad : ℕ
  -- the shared secrets of the keys and of the keys made for this exchange, and the signature
  pub token : Bytes
  pub ecdhe : Bytes
  pub signed : Bytes
  pub signature : Bytes
  pub auth_packet : Bytes
  pub resp_packet : Bytes
  pub client_nonce_size : length client_nonce ≡ 32
  pub server_nonce_size : length server_nonce ≡ 32
  pub shared_token : s.generate_shared client (s.curve.public_key server) ≡ some token
  pub shared_ecdhe : s.generate_shared client_random (s.curve.public_key server_random) ≡ some ecdhe
  pub masked : xor token client_nonce ≡ some signed
  pub signing : sign s.curve client_random signed ≡ ok signature

module _ (s : Suite) (l : SuiteLaws s) (x : Exchange s) where
  open s use {curve, rlp}
  open x use {
    client, server, client_random, server_random, client_nonce, server_nonce, client_pad,
    server_pad, token, ecdhe, signed, signature, auth_packet, resp_packet,
  }

  abbrev pub auth : AuthMsg
  auth = auth_of s l (curve.public_key client) signature client_nonce

  abbrev pub resp : AuthResp
  resp = resp_of s l (curve.public_key server_random) server_nonce

  abbrev pub auth_message : Bytes
  auth_message = rlp.marshal (marshal_auth rlp auth)

  abbrev pub resp_message : Bytes
  resp_message = rlp.marshal (marshal_resp rlp resp)

  -- the states of the client and of the server behind the messages
  abbrev pub client_asking : State s
  client_asking = record {
    is_client = true;
    remote = some (curve.public_key server);
    init_nonce = client_nonce;
    resp_nonce = [];
    random_priv_key = some client_random;
    remote_random_pub = none;
  }

  abbrev client_done : State s
  client_done = record {
    is_client = true;
    remote = some (curve.public_key server);
    init_nonce = client_nonce;
    resp_nonce = server_nonce;
    random_priv_key = some client_random;
    remote_random_pub = some (curve.public_key server_random);
  }

  abbrev server_asked : State s
  server_asked = record {
    is_client = false;
    remote = some (curve.public_key client);
    init_nonce = client_nonce;
    resp_nonce = [];
    random_priv_key = some server_random;
    remote_random_pub = some (curve.public_key client_random);
  }

  abbrev server_done : State s
  server_done = record {
    is_client = false;
    remote = some (curve.public_key client);
    init_nonce = client_nonce;
    resp_nonce = server_nonce;
    random_priv_key = some server_random;
    remote_random_pub = some (curve.public_key client_random);
  }

  -- the start of either end
  abbrev start : Bool → Option curve.PublicKey → State s
  start is_client remote = record {
    is_client = is_client;
    remote = remote;
    init_nonce = [];
    resp_nonce = [];
    random_priv_key = none;
    remote_random_pub = none;
  }

  make_auth_msg-auth :
      make_auth_msg s client client_nonce client_random
        (start true (some (curve.public_key server)))
      ≡ ok (auth, client_asking)
  unfolding make_auth_msg static_shared_secret
  make_auth_msg-auth = rw (make_auth_msg, x.shared_token, x.masked, x.signing) refl

  handle_auth_msg-auth :
      handle_auth_msg s auth server server_random (start false none) ≡ ok server_asked
  unfolding handle_auth_msg static_shared_secret
  handle_auth_msg-auth =
      let same : s.generate_shared server (curve.public_key client) ≡ some token =
        l.shared_symmetric server client ∙ x.shared_token in
      rw
        (
          handle_auth_msg,
          node_id_to_pub_key-node_id s l (curve.public_key client),
          same,
          x.masked,
          (recover_pubkey-sign curve l.curve_laws client_random signed signature x.signing).1,
          import_public_key-marshal s l (curve.public_key client_random),
        )
        refl

  handle_auth_resp-resp : handle_auth_resp s resp client_asking ≡ ok client_done
  unfolding handle_auth_resp
  handle_auth_resp-resp =
      rw (handle_auth_resp, import_public_key-node_id s l (curve.public_key server_random)) refl

  abbrev nonces : Bytes
  nonces = curve.keccak (server_nonce ++ client_nonce)

  abbrev aes : Bytes
  aes = curve.keccak (ecdhe ++ curve.keccak (ecdhe ++ nonces))

  abbrev mac : Bytes
  mac = curve.keccak (ecdhe ++ aes)

  module _ (from_resp from_init : Bytes) (r : xor mac server_nonce ≡ some from_resp)
      (i : xor mac client_nonce ≡ some from_init) where
    abbrev client_secrets : Secrets s
    client_secrets = record {
      remote_id = curve.public_key server;
      aes = aes;
      mac = mac;
      egress_mac = from_resp ++ auth_packet;
      ingress_mac = from_init ++ resp_packet;
    }

    abbrev server_secrets : Secrets s
    server_secrets = record {
      remote_id = curve.public_key client;
      aes = aes;
      mac = mac;
      egress_mac = from_init ++ resp_packet;
      ingress_mac = from_resp ++ auth_packet;
    }

    secrets-client : secrets s auth_packet resp_packet client_done ≡ ok client_secrets
    unfolding secrets
    secrets-client = rw (secrets, x.shared_ecdhe, r, i) refl

    secrets-server : secrets s auth_packet resp_packet server_done ≡ ok server_secrets
    unfolding secrets
    secrets-server =
        let same : s.generate_shared server_random (curve.public_key client_random) ≡ some ecdhe =
          l.shared_symmetric server_random client_random ∙ x.shared_ecdhe in
        rw (secrets, same, r, i) refl

  module _
      (asks : IsPacket s server enc_auth_msg_len
        (auth_message ++ replicate client_pad 0)
        auth_packet)
      (answers : IsPacket s client enc_auth_resp_len
        (resp_message ++ replicate server_pad 0)
        resp_packet) where
    answer_auth-auth :
        (from_resp from_init : Bytes) (r : xor mac server_nonce ≡ some from_resp)
        (i : xor mac client_nonce ≡ some from_init)
        → answer_auth s server server_random server_nonce server_pad answers.random
            (start false none)
            auth_packet
            auth
            (open_conn [] [])
          ≡ ok (some (server_secrets from_resp from_init r i), open_conn [] (resp_packet ∷ []))
    unfolding answer_auth make_auth_resp
    answer_auth-auth from_resp from_init r i =
        rw
          (
            answer_auth,
            handle_auth_msg-auth,
            write_message-packet s l client enc_auth_resp_len server_pad resp_message resp_packet []
                [] answers,
            secrets-server from_resp from_init r i,
          )
          refl

    -- Two connections, of the client and of the server, on which nothing was sent, and two ends
    -- whose keys share their secrets and whose nonces have 32 bytes. The auth packet of the client
    -- is what the server reads, in one piece, and the response of the server what the client reads;
    -- both packets are of a size that can be announced and are not taken for ones from before
    -- EIP-8. Both handshakes succeed, and each end gets the key of the other one, the same AES and
    -- MAC secrets, and as the hash of its outgoing frames that of the incoming frames of the other.
    -- The primitives have their laws.
    pub handshake_client_end-handshake_server :
        (c : Secrets s) × (d : Secrets s) × (handshake_client_begin s client
            (curve.public_key server)
            client_random
            client_nonce
            client_pad
            asks.random
            (open_conn [] [])
          ≡ ok (auth_packet, client_asking, open_conn [] (auth_packet ∷ [])))
        × (handshake_server s server server_random server_nonce server_pad answers.random
              (open_conn (auth_packet ∷ []) [])
            ≡ ok (some d, open_conn [] (resp_packet ∷ [])))
        × (handshake_client_end s client auth_packet client_asking
              (open_conn (resp_packet ∷ []) (auth_packet ∷ []))
            ≡ ok (c, open_conn [] (auth_packet ∷ [])))
        × (c.remote_id ≡ curve.public_key server)
        × (d.remote_id ≡ curve.public_key client)
        × (c.aes ≡ d.aes)
        × (c.mac ≡ d.mac)
        × (c.egress_mac ≡ d.ingress_mac)
        × (c.ingress_mac ≡ d.egress_mac)
    unfolding handshake_client_begin handshake_server handshake_client_end make_auth_resp
    handshake_client_end-handshake_server =
        let size : length mac ≡ 32 = l.curve_laws.keccak_size (ecdhe ++ aes) in
        let (from_resp, r, _) =
          xor_total mac server_nonce (omega (arith, size, x.server_nonce_size)) in
        let (from_init, i, _) =
          xor_total mac client_nonce (omega (arith, size, x.client_nonce_size)) in
        let signature_size =
          (recover_pubkey-sign curve l.curve_laws client_random signed signature x.signing).0 in
        (
          client_secrets from_resp from_init r i,
          server_secrets from_resp from_init r i,
          rw
              (
                handshake_client_begin,
                make_auth_msg-auth,
                write_message-packet s l server enc_auth_msg_len client_pad auth_message auth_packet
                    [] [] asks,
              )
              refl,
          rw
              (
                handshake_server,
                read_auth-packet s l server (curve.public_key client) signature client_nonce
                    auth_packet client_pad [] (open_conn [] []) asks signature_size
                    x.client_nonce_size,
              )
              (answer_auth-auth from_resp from_init r i),
          rw
              (
                handshake_client_end,
                read_resp-packet s l client (curve.public_key server_random) server_nonce
                    resp_packet server_pad [] (open_conn [] (auth_packet ∷ [])) answers
                    x.server_nonce_size,
                handle_auth_resp-resp,
                secrets-client from_resp from_init r i,
              )
              refl,
          refl,
          refl,
          refl,
          refl,
          refl,
          refl,
        )
