-- ===== src/Eth/Messages/RoundTrip.antt =====
-- The messages of wire/eth/messages.go encoded and then decoded.
use go_devp2p.Prelude.{
  ℕ, ◌^◌, ◌<◌, ◌≡◌, refl, false, Option, none, some, List, [], ◌∷◌, map, Bytes, length, ok, All,
  arith, ◌==◌,
}
use go_devp2p.ForkId.{Identifier}
use go_devp2p.Rlp.{Rlp, Decoded}
use go_devp2p.Eth.Messages.{
  Packet, BlockHeadersPacket, Status, marshal_id, unmarshal_id, origin, marshal_headers,
  unmarshal_origin, unmarshal_headers, hashes_of, marshal_hashes, unmarshal_hashes, marshal_status,
  unmarshal_status, marshal_request, unmarshal_response, unmarshal_response_to,
}

-- The sizes of the protocol.
pub record StatusFits (s : Status) : Type 0 where
  pub version : s.protocol_version < 2 ^ 64
  pub network : s.network_id < 2 ^ 64
  pub head : length s.head ≡ 32
  pub genesis : length s.genesis ≡ 32
  pub fork_hash : length s.fork_id.hash ≡ 4
  pub fork_next : s.fork_id.next < 2 ^ 64

-- Either a hash of 32 bytes and no number, or a number of 64 bits.
abbrev pub OriginFits : Option Bytes → ℕ → Type 0
OriginFits none number = number < 2 ^ 64
OriginFits (some hash) number = (length hash ≡ 32) × (number ≡ 0)

pub record HeadersFits (g : BlockHeadersPacket) : Type 0 where
  pub origin : OriginFits g.hash g.number
  pub amount : g.amount < 2 ^ 64
  pub skip : g.skip < 2 ^ 64

abbrev pub IsHash : Bytes → Type 0
IsHash h = length h ≡ 32

module _ (r : Rlp) where
  open r use {
    Value, elems_of_array, uint64_of_uint, bytes_of_bytes, bytes_of_length, bytes_of_uint,
    bool_of_bool, big_int_of_big_int, parse_of_marshal,
  }

  pub unmarshal_id-marshal_id :
      (i : Identifier)
      → length i.hash ≡ 4
      → i.next < 2 ^ 64
      → unmarshal_id r (marshal_id r i) ≡ ok i
  unfolding unmarshal_id marshal_id
  unmarshal_id-marshal_id i h n = simp (elems_of_array, bytes_of_length, h, uint64_of_uint i.next n)

  -- A status with fields of the sizes of the protocol is decoded as it was encoded.
  pub unmarshal_status-marshal_status :
      (s : Status) → StatusFits s → unmarshal_status r (marshal_status r s) ≡ ok s
  unfolding unmarshal_status marshal_status
  unmarshal_status-marshal_status s h = simp (
    elems_of_array,
    bytes_of_length,
    h.head,
    h.genesis,
    uint64_of_uint s.protocol_version h.version,
    uint64_of_uint s.network_id h.network,
    big_int_of_big_int,
    unmarshal_id-marshal_id s.fork_id h.fork_hash h.fork_next,
  )

  unmarshal_origin-origin :
      (g : BlockHeadersPacket) (o : Option Bytes)
      → OriginFits o g.number
      → unmarshal_origin r (origin r g o) ≡ ok (o, g.number)
  unfolding unmarshal_origin origin
  unmarshal_origin-origin g none h =
      let (b, e, lt) = bytes_of_uint g.number h in
      let ne : (length b == 32) ≡ false = ground arith in rw (e, ne, uint64_of_uint g.number h)
  unmarshal_origin-origin g (some hash) h = rw (bytes_of_bytes hash, h.0, h.1)

  -- A query for block headers by a hash of 32 bytes or by a number of 64 bits is decoded as it was
  -- encoded.
  pub unmarshal_headers-marshal_headers :
      (g : BlockHeadersPacket) → HeadersFits g → unmarshal_headers r (marshal_headers r g) ≡ ok g
  unfolding unmarshal_headers marshal_headers
  unmarshal_headers-marshal_headers g h = simp (
    elems_of_array,
    unmarshal_origin-origin g g.hash h.origin,
    uint64_of_uint g.amount h.amount,
    uint64_of_uint g.skip h.skip,
    bool_of_bool,
  )

  hashes_of-map : (hs : List Bytes) → All IsHash hs → hashes_of r (map r.new_bytes hs) ≡ ok hs
  unfolding hashes_of
  hashes_of-map [] h = refl
  hashes_of-map (x ∷ hs) h = simp (bytes_of_length, h.0, hashes_of-map hs h.1)

  -- A list of hashes of 32 bytes is decoded as it was encoded.
  pub unmarshal_hashes-marshal_hashes :
      (hs : List Bytes) → All IsHash hs → unmarshal_hashes r (marshal_hashes r hs) ≡ ok hs
  unfolding unmarshal_hashes marshal_hashes
  unmarshal_hashes-marshal_hashes hs h =
      rw (elems_of_array (map r.new_bytes hs)) (hashes_of-map hs h)

  pub unmarshal_response-marshal_request :
      (p : Packet Value) → p.request_id < 2 ^ 64 → unmarshal_response r (marshal_request r p) ≡ ok p
  unfolding unmarshal_response marshal_request
  unmarshal_response-marshal_request p h = simp (elems_of_array, uint64_of_uint p.request_id h)

  pub unmarshal_response_to-marshal_request :
      {A : Type 0} (f : Value → Decoded A) (p : Packet Value) (a : A)
      → p.request_id < 2 ^ 64
      → f p.body ≡ ok a
      → unmarshal_response_to r f (marshal_request r p)
        ≡ ok (record { request_id = p.request_id; body = a })
  unfolding unmarshal_response_to marshal_request
  unmarshal_response_to-marshal_request f p a h e =
      simp (elems_of_array, uint64_of_uint p.request_id h, e)
