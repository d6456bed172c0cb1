-- ===== src/Eth/Messages.antt =====
-- The messages of wire/eth/messages.go and their codecs, and the fork identifier's of
-- forkid/forkid.go. A decoder starts from a new message.
pub mod RoundTrip
pub mod Agree
use go_devp2p.Prelude.{
  ℕ, ◌^◌, ◌<◌, ◌≡◌, Bool, true, false, not, Option, none, some, List, [], ◌∷◌, map, Bytes, length,
  ◌==◌, if◌then◌else◌, Result, ok, err, ◌>>=◌, ◌>>◌, guard, bytes_eq,
}
use go_devp2p.Rlp.{
  Rlp, CodecError, bad, panic, Decoded, array_or_null, elems, uint64, bytes, bytes_of, bool,
  big_int, elem, parsed,
}
use go_devp2p.ForkId.{Identifier, id_equal}

-- A Request's or a Response's number and body
pub record Packet (V : Type 0) : Type 0 where
  pub request_id : ℕ
  pub body : V

pub record BlockHeadersPacket : Type 0 where
  pub hash : Option Bytes
  pub number : ℕ
  pub amount : ℕ
  pub skip : ℕ
  pub reverse : Bool

pub record NewBlockHash : Type 0 where
  pub hash : Bytes
  pub number : ℕ

pub record Status : Type 0 where
  pub protocol_version : ℕ
  pub network_id : ℕ
  pub td : ℕ
  pub head : Bytes
  pub genesis : Bytes
  pub fork_id : Identifier

pub data Mismatch : Type 0 where
  incorrect_protocol_version incorrect_network incorrect_genesis incorrect_fork_id : Mismatch

-- Status.Equal
unfoldable pub status_equal : Status → Status → Option Mismatch
status_equal s ss =
    if not (s.protocol_version == ss.protocol_version)
    then some incorrect_protocol_version
    else if not (s.network_id == ss.network_id)
    then some incorrect_network
    else if not (bytes_eq s.genesis ss.genesis)
    then some incorrect_genesis
    else if not (id_equal s.fork_id ss.fork_id)
    then some incorrect_fork_id
    else none

module _ (r : Rlp) where
  open r use {
    Value, new_array, new_null_array, new_uint, new_bytes, new_bool, new_big_int, marshal, parse,
  }

  -- ID.MarshalRLPWith and UnmarshalRLPWith
  unfoldable pub marshal_id : Identifier → Value
  marshal_id i = new_array (new_bytes i.hash ∷ new_uint i.next ∷ [])

  unfoldable pub unmarshal_id : Value → Decoded Identifier
  unmarshal_id v = do
    vs ← elems r v
    guard (length vs == 2) bad
    hash ← (do x ← elem r vs 0; bytes_of r 4 x)
    next ← (do x ← elem r vs 1; uint64 r x)
    ok (record { hash = hash; next = next })

  -- Request.MarshalRLPWith, of a body that is marshalled
  unfoldable pub marshal_request : Packet Value → Value
  marshal_request p = new_array (new_uint p.request_id ∷ p.body ∷ [])

  -- Response.UnmarshalRLPWith, with no destination for the body
  unfoldable pub unmarshal_response : Value → Decoded (Packet Value)
  unmarshal_response v = do
    vs ← elems r v
    guard (length vs == 2) bad
    request_id ← (do x ← elem r vs 0; uint64 r x)
    body ← elem r vs 1
    ok (record { request_id = request_id; body = body })

  -- and with one
  unfoldable pub unmarshal_response_to :
      {A : Type 0} → (Value → Decoded A) → Value → Decoded (Packet A)
  unmarshal_response_to unmarshal_body v = do
    vs ← elems r v
    guard (length vs == 2) bad
    request_id ← (do x ← elem r vs 0; uint64 r x)
    body ← (do x ← elem r vs 1; unmarshal_body x)
    ok (record { request_id = request_id; body = body })

  origin : BlockHeadersPacket → Option Bytes → Value
  origin g none = new_uint g.number
  origin g (some hash) = new_bytes hash

  -- BlockHeadersPacket.MarshalRLPWith and UnmarshalRLPWith
  unfoldable pub marshal_headers : BlockHeadersPacket → Value
  unfolding origin
  marshal_headers g =
      new_array (origin g g.hash ∷ new_uint g.amount ∷ new_uint g.skip ∷ new_bool g.reverse ∷ [])

  -- a hash or a number, by the size
  unfoldable pub unmarshal_origin : Value → Decoded (Option Bytes × ℕ)
  unmarshal_origin v = do
    buf ← bytes r v
    if length buf == 32 then ok (some buf, 0) else (uint64 r v >>= λ number. ok (none, number))

  unfoldable pub unmarshal_headers : Value → Decoded BlockHeadersPacket
  unmarshal_headers v = do
    vs ← elems r v
    guard (length vs == 4) bad
    (hash, number) ← (do x ← elem r vs 0; unmarshal_origin x)
    amount ← (do x ← elem r vs 1; uint64 r x)
    skip ← (do x ← elem r vs 2; uint64 r x)
    reverse ← (do x ← elem r vs 3; bool r x)
    ok (record { hash = hash; number = number; amount = amount; skip = skip; reverse = reverse })

  -- HashList: GetHash reads 32 bytes
  hashes_of : List Value → Decoded (List Bytes)
  hashes_of [] = ok []
  hashes_of (v ∷ vs) = do hash ← bytes_of r 32 v; hashes ← hashes_of vs; ok (hash ∷ hashes)

  unfoldable pub unmarshal_hashes : Value → Decoded (List Bytes)
  unfolding hashes_of
  unmarshal_hashes v = do vs ← elems r v; hashes_of vs

  unfoldable pub marshal_hashes : List Bytes → Value
  marshal_hashes hs = new_array (map new_bytes hs)

  -- NewBlockHash.UnmarshalRLPWith
  unfoldable pub unmarshal_new_block_hash : Value → Decoded NewBlockHash
  unmarshal_new_block_hash v = do
    vs ← elems r v
    guard (length vs == 2) bad
    hash ← (do x ← elem r vs 0; bytes_of r 32 x)
    number ← (do x ← elem r vs 1; uint64 r x)
    ok (record { hash = hash; number = number })

  -- newBlockHashesPacket.UnmarshalRLPWith
  block_hashes_of : List Value → Decoded (List NewBlockHash)
  block_hashes_of [] = ok []
  block_hashes_of (v ∷ vs) = do
    packet ← unmarshal_new_block_hash v
    packets ← block_hashes_of vs
    ok (packet ∷ packets)

  unfoldable pub unmarshal_new_block_hashes : Value → Decoded (List NewBlockHash)
  unfolding block_hashes_of
  unmarshal_new_block_hashes v = do vs ← elems r v; block_hashes_of vs

  -- Status.UnmarshalRLPWith and MarshalRLPWith
  unfoldable pub unmarshal_status : Value → Decoded Status
  unmarshal_status v = do
    vs ← elems r v
    guard (length vs == 6) bad
    protocol_version ← (do x ← elem r vs 0; uint64 r x)
    network_id ← (do x ← elem r vs 1; uint64 r x)
    td ← (do x ← elem r vs 2; big_int r x)
    head ← (do x ← elem r vs 3; bytes_of r 32 x)
    genesis ← (do x ← elem r vs 4; bytes_of r 32 x)
    fork_id ← (do x ← elem r vs 5; unmarshal_id x)
    ok (record {
      protocol_version = protocol_version;
      network_id = network_id;
      td = td;
      head = head;
      genesis = genesis;
      fork_id = fork_id;
    })

  unfoldable pub marshal_status : Status → Value
  marshal_status s = new_array (
      new_uint s.protocol_version
      ∷ new_uint s.network_id
      ∷ new_big_int s.td
      ∷ new_bytes s.head
      ∷ new_bytes s.genesis
      ∷ marshal_id s.fork_id
      ∷ [])

  -- MarshalRLP, and UnmarshalRLP by a decoder
  abbrev pub marshal_rlp : Value → Bytes
  marshal_rlp v = marshal v

  abbrev pub unmarshal_rlp : {A : Type 0} → (Value → Decoded A) → Bytes → Decoded A
  unmarshal_rlp unmarshal buf = parsed r buf >>= unmarshal
