-- ===== src/Rlpx/Messages.antt =====
-- The messages of rlpx/common.go and rlpx/handshake_messages.go and their codecs.
pub mod RoundTrip
use go_devp2p.Prelude.{
  ℕ, ◌+◌, ◌<◌, Bool, true, false, Option, none, some, List, [], ◌∷◌, ◌++◌, map, Bytes, length, take,
  drop, replicate, ltb, ◌==◌, if◌then◌else◌, Result, ok, err, ◌>>=◌, ◌>>◌, guard, not, bytes_lt,
  bytes_eq,
}
use go_devp2p.Rlp.{
  Rlp, CodecError, bad, Decoded, array_or_null, elems, uint64, bytes, bytes_of, elem, parsed,
}

pub record Cap : Type 0 where
  pub name : Bytes
  pub version : ℕ

-- Cap.less: strings.Compare on the names, then the versions
unfoldable pub cap_less : Cap → Cap → Bool
cap_less c d = if bytes_eq c.name d.name then ltb c.version d.version else bytes_lt c.name d.name

pub record Info : Type 0 where
  pub version : ℕ
  pub name : Bytes
  pub caps : List Cap
  pub listen_port : ℕ
  pub id : Bytes

abbrev pub node_id_bytes : ℕ
node_id_bytes = 64

-- authMsgV4 and authRespV4
pub record AuthMsg : Type 0 where
  pub got_plain : Bool
  pub signature : Bytes
  pub initiator_pubkey : Bytes
  pub nonce : Bytes
  pub version : ℕ

pub record AuthResp : Type 0 where
  pub random_pubkey : Bytes
  pub nonce : Bytes
  pub version : ℕ

abbrev pub sig_len : ℕ
sig_len = 65

abbrev pub pub_len : ℕ
pub_len = 64

abbrev pub sha_len : ℕ
sha_len = 32

-- DiscReason is a uint; DiscUnknown
abbrev pub disc_unknown : ℕ
disc_unknown = 0x100

module _ (r : Rlp) where
  open r use {Value, new_array, new_uint, new_bytes, marshal, get_elems}

  -- Cap.unmarshalRLP
  unfoldable pub unmarshal_cap : Value → Decoded Cap
  unmarshal_cap v = do
    fields ← elems r v
    guard (length fields == 2) bad
    name ← (do x ← elem r fields 0; bytes r x)
    version ← (do x ← elem r fields 1; uint64 r x)
    ok (record { name = name; version = version })

  unfoldable pub unmarshal_caps : List Value → Decoded (List Cap)
  unmarshal_caps [] = ok []
  unmarshal_caps (v ∷ vs) = do cap ← unmarshal_cap v; caps ← unmarshal_caps vs; ok (cap ∷ caps)

  unfoldable pub marshal_cap : Cap → Value
  marshal_cap c = new_array (new_bytes c.name ∷ new_uint c.version ∷ [])

  -- Info.MarshalRLP
  unfoldable pub marshal_info : Info → Bytes
  marshal_info i = marshal (
      new_array (
        new_uint i.version
        ∷ new_bytes i.name
        ∷ array_or_null r (map marshal_cap i.caps)
        ∷ new_uint i.listen_port
        ∷ new_bytes i.id
        ∷ []))

  -- Info.UnmarshalRLP, into a new Info
  unfoldable pub unmarshal_info : Bytes → Decoded Info
  unmarshal_info b = do
    v ← parsed r b
    vs ← elems r v
    guard (not (ltb (length vs) 5)) bad
    version ← (do x ← elem r vs 0; uint64 r x)
    name ← (do x ← elem r vs 1; bytes r x)
    list ← (do x ← elem r vs 2; elems r x)
    caps ← unmarshal_caps list
    listen_port ← (do x ← elem r vs 3; uint64 r x)
    id ← (do x ← elem r vs 4; bytes r x)
    guard (length id == node_id_bytes) bad
    ok (record { version = version; name = name; caps = caps; listen_port = listen_port; id = id })

  -- decodeDiscMsg; beside an error it returns DiscUnknown
  disc_elem : Value → Option (List Value) → Decoded Value
  disc_elem v none = ok v
  disc_elem v (some []) = err bad
  disc_elem v (some (x ∷ [])) = ok x
  disc_elem v (some (x ∷ y ∷ ys)) = err bad

  unfoldable pub decode_disc_msg : Bytes → Decoded ℕ
  unfolding disc_elem
  decode_disc_msg buf = do v ← parsed r buf; elem ← disc_elem v (get_elems v); uint64 r elem

  -- authMsgV4.MarshalRLP and UnmarshalRLP
  unfoldable pub marshal_auth : AuthMsg → Value
  marshal_auth a = new_array (
      new_bytes a.signature
      ∷ new_bytes a.initiator_pubkey
      ∷ new_bytes a.nonce
      ∷ new_uint a.version
      ∷ [])

  unfoldable pub unmarshal_auth : Bool → Value → Decoded AuthMsg
  unmarshal_auth plain v = do
    vs ← elems r v
    guard (not (ltb (length vs) 4)) bad
    signature ← (do x ← elem r vs 0; bytes_of r sig_len x)
    pubkey ← (do x ← elem r vs 1; bytes_of r pub_len x)
    nonce ← (do x ← elem r vs 2; bytes_of r sha_len x)
    version ← (do x ← elem r vs 3; uint64 r x)
    ok (record {
      got_plain = plain;
      signature = signature;
      initiator_pubkey = pubkey;
      nonce = nonce;
      version = version;
    })

  -- authRespV4.MarshalRLP and UnmarshalRLP
  unfoldable pub marshal_resp : AuthResp → Value
  marshal_resp a =
      new_array (new_bytes a.random_pubkey ∷ new_bytes a.nonce ∷ new_uint a.version ∷ [])

  unfoldable pub unmarshal_resp : Value → Decoded AuthResp
  unmarshal_resp v = do
    vs ← elems r v
    guard (not (ltb (length vs) 3)) bad
    pubkey ← (do x ← elem r vs 0; bytes_of r pub_len x)
    nonce ← (do x ← elem r vs 1; bytes_of r sha_len x)
    version ← (do x ← elem r vs 2; uint64 r x)
    ok (record { random_pubkey = pubkey; nonce = nonce; version = version })

-- Go's copy: as many bytes as fit, and their number
unfoldable pub copy : Bytes → Bytes → Bytes × ℕ
copy [] src = ([], 0)
copy (d ∷ ds) [] = (d ∷ ds, 0)
copy (d ∷ ds) (s ∷ ss) = let (rest, n) = copy ds ss in (s ∷ rest, n + 1)

-- copy(buf[n:], src), where n is at most the length of the buffer
unfoldable pub copy_at : Bytes → ℕ → Bytes → Bytes × ℕ
unfolding copy
copy_at buf n src = let (tail, copied) = copy (drop n buf) src in (take n buf ++ tail, n + copied)

-- The plain texts of authMsgV4.sealPlain and authRespV4.sealPlain: the fields, of the sizes of the
-- protocol at most, are copied into a buffer of authMsgLen or authRespLen bytes.
unfoldable pub plain_auth : AuthMsg → Bytes
unfolding copy_at
plain_auth m =
    let (buf, n) = copy_at (replicate 194 0) 0 m.signature in
    let (buf', n') = copy_at buf (n + sha_len) m.initiator_pubkey in (copy_at buf' n' m.nonce).0

unfoldable pub plain_resp : AuthResp → Bytes
unfolding copy_at
plain_resp m =
    let (buf, n) = copy_at (replicate 97 0) 0 m.random_pubkey in (copy_at buf n m.nonce).0

-- authMsgV4.decodePlain: the copies go into the slices that the message has. The input is the plain
-- text of a packet of fixed size, so that it is long enough.
unfoldable pub decode_plain_auth : AuthMsg → Bytes → AuthMsg
unfolding copy
decode_plain_auth m input =
    let (signature, a) = copy m.signature input in
    let n = a + sha_len in
    let (pubkey, b) = copy m.initiator_pubkey (drop n input) in
    let (nonce, c) = copy m.nonce (drop (n + b) input) in
    record {
      got_plain = true;
      signature = signature;
      initiator_pubkey = pubkey;
      nonce = nonce;
      version = 4;
    }

-- authRespV4.decodePlain
unfoldable pub decode_plain_resp : AuthResp → Bytes → AuthResp
unfolding copy
decode_plain_resp m input =
    let (pubkey, n) = copy m.random_pubkey input in
    let (nonce, c) = copy m.nonce (drop n input) in
    record { random_pubkey = pubkey; nonce = nonce; version = 4 }
