-- ===== src/Tests/Exchange.antt =====
-- The key exchange of rlpx/handshake.go, with two keys and an encryption that is a tag.
use go_devp2p.Prelude.{
  ℕ, suc, ◌+◌, ◌<◌, ◌≤◌, ◌≡◌, refl, ap, sym, ◌∙◌, Bool, true, false, Option, none, some, some_inj,
  [], ◌∷◌, ◌++◌, Bytes, be16, length, length-append, get_elem?, replicate, take, drop, ==_refl, ok,
  arith, ◌==◌, if◌then◌else◌,
}
use go_devp2p.Crypto.{sign}
use go_devp2p.Kademlia.Key.{xor}
use go_devp2p.Rlpx.Messages.{marshal_auth, marshal_resp}
use go_devp2p.Rlpx.KeyExchange.Steps.{auth_of, resp_of}
use go_devp2p.Rlp.Tree.{write, tree_rlp, tree_parse-padded}
use go_devp2p.Rlpx.KeyExchange.{
  Suite, Secrets, handshake_server, handshake_client_begin, handshake_client_end,
}
use go_devp2p.Rlpx.KeyExchange.Wire.{SuiteLaws, IsPacket, open_conn}
use go_devp2p.Rlpx.KeyExchange.Agree.{
  Exchange, auth_message, resp_message, client_asking, handshake_client_end-handshake_server,
}
use go_devp2p.Tests.Discv4.{toy, toy-Laws, key_of, key_of-flag, signature}

abbrev tag : Bytes → Bytes
tag prefix = (100 + length prefix) ∷ replicate 112 0

abbrev open_tag : Bytes → Bytes → Option Bytes
open_tag [] prefix = none
open_tag (v ∷ e) prefix = if v == 100 + length prefix then some (drop 112 e) else none

abbrev toy_suite : Suite
toy_suite = record {
  curve = toy;
  rlp = tree_rlp;
  encrypt = λ random p m prefix. some (tag prefix ++ m);
  decrypt = λ k e prefix. open_tag e prefix;
  generate_shared = λ k p. some (replicate 32 9);
  point = λ a b. key_of (get_elem? a 0);
}

opened : (m prefix : Bytes) → open_tag (tag prefix ++ m) prefix ≡ some m
opened m prefix = rw (==_refl (100 + length prefix)) refl

sealed_size : (m prefix : Bytes) → length (tag prefix ++ m) ≡ length m + 113
sealed_size m prefix = omega (arith, length-append (tag prefix) m)

toy_suite-SuiteLaws : SuiteLaws toy_suite
toy_suite-SuiteLaws = record {
  curve_laws = toy-Laws;
  shared_symmetric = λ a b. refl;
  shared_size = λ a p t e. ap length (sym (some_inj e));
  decrypt_of_encrypt = λ random k m prefix e h. (
    ap length (sym (some_inj h)) ∙ sealed_size m prefix,
    ap (λ x. open_tag x prefix) (sym (some_inj h)) ∙ opened m prefix,
  );
  marshal_flag = λ p. refl;
  point_of_marshal = λ p. key_of-flag p;
  parse_padded = λ v pad. tree_parse-padded v (replicate pad 0);
}

abbrev client_nonce : Bytes
client_nonce = replicate 32 1

abbrev server_nonce : Bytes
server_nonce = replicate 32 2

abbrev auth_buf : Bytes
auth_buf =
    tree_rlp.marshal (
      marshal_auth tree_rlp
        (auth_of toy_suite toy_suite-SuiteLaws true (signature true) client_nonce))
    ++ replicate 299 0

abbrev resp_buf : Bytes
resp_buf =
    tree_rlp.marshal
      (marshal_resp tree_rlp (resp_of toy_suite toy_suite-SuiteLaws false server_nonce))
    ++ replicate 299 0

abbrev packet_of : Bytes → Bytes
packet_of buf = be16 (length buf + 113) ++ (tag (be16 (length buf + 113)) ++ buf)

auth_size : length auth_buf ≡ 473
unfolding write marshal_auth
auth_size = refl

resp_size : length resp_buf ≡ 405
unfolding write marshal_resp
resp_size = refl

masked : xor (replicate 32 9) client_nonce ≡ some (replicate 32 8)
unfolding xor
masked = refl

signing : sign toy true (replicate 32 8) ≡ ok (signature true)
unfolding sign
signing = refl

abbrev exchange : Exchange toy_suite
exchange = record {
  client = true;
  server = false;
  client_random = true;
  server_random = false;
  client_nonce = client_nonce;
  server_nonce = server_nonce;
  client_pad = 299;
  server_pad = 299;
  token = replicate 32 9;
  ecdhe = replicate 32 9;
  signed = replicate 32 8;
  signature = signature true;
  auth_packet = packet_of auth_buf;
  resp_packet = packet_of resp_buf;
  client_nonce_size = refl;
  server_nonce_size = refl;
  shared_token = refl;
  shared_ecdhe = refl;
  masked = masked;
  signing = signing;
}

-- a packet is not taken for one from before EIP-8: its first byte is no tag
not_plain :
    (buf : Bytes) (n m : ℕ)
    → length buf ≡ m
    → m + 113 < 25600
    → open_tag (take (suc n) (packet_of buf)) [] ≡ none
unfolding be16
not_plain buf n m h small = ground arith

packet-IsPacket :
    (k : Bool) (n m : ℕ) (buf : Bytes)
    → length buf ≡ m
    → m + 113 < 25600
    → suc n ≤ m + 113
    → IsPacket toy_suite k (suc n) buf (packet_of buf)
packet-IsPacket k n m buf h small large = record {
  random = [];
  enc = tag (be16 (length buf + 113)) ++ buf;
  sealed = refl;
  parts = refl;
  small = omega arith;
  large = omega arith;
  not_plain = not_plain buf n m h small;
}

asks :
    IsPacket toy_suite false 307
      (auth_message toy_suite toy_suite-SuiteLaws exchange ++ replicate 299 0)
      (packet_of auth_buf)
asks = packet-IsPacket false 306 473 auth_buf auth_size (omega arith) (omega arith)

answers :
    IsPacket toy_suite true 210
      (resp_message toy_suite toy_suite-SuiteLaws exchange ++ replicate 299 0)
      (packet_of resp_buf)
answers = packet-IsPacket true 209 405 resp_buf resp_size (omega arith) (omega arith)

handshake_client_end-handshake_server_example :
    (c : Secrets toy_suite) × (d : Secrets toy_suite) × (handshake_client_begin toy_suite true false
        true client_nonce 299 asks.random
        (open_conn [] [])
      ≡ ok (
        packet_of auth_buf,
        client_asking toy_suite toy_suite-SuiteLaws exchange,
        open_conn [] (packet_of auth_buf ∷ []),
      ))
    × (handshake_server toy_suite false false server_nonce 299 answers.random
          (open_conn (packet_of auth_buf ∷ []) [])
        ≡ ok (some d, open_conn [] (packet_of resp_buf ∷ [])))
    × (handshake_client_end toy_suite true
          (packet_of auth_buf)
          (client_asking toy_suite toy_suite-SuiteLaws exchange)
          (open_conn (packet_of resp_buf ∷ []) (packet_of auth_buf ∷ []))
        ≡ ok (c, open_conn [] (packet_of auth_buf ∷ [])))
    × (c.remote_id ≡ false)
    × (d.remote_id ≡ true)
    × (c.aes ≡ d.aes)
    × (c.mac ≡ d.mac)
    × (c.egress_mac ≡ d.ingress_mac)
    × (c.ingress_mac ≡ d.egress_mac)
handshake_client_end-handshake_server_example =
    handshake_client_end-handshake_server toy_suite toy_suite-SuiteLaws exchange asks answers
