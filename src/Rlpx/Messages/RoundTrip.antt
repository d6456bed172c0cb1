-- ===== src/Rlpx/Messages/RoundTrip.antt =====
-- The handshake messages of rlpx encoded and then decoded.
use go_devp2p.Prelude.{ℕ, ◌^◌, ◌<◌, ◌≡◌, refl, List, [], ◌∷◌, map, length, ok, All}
use go_devp2p.Rlp.{Rlp}
use go_devp2p.Rlpx.Messages.{
  Cap, Info, AuthMsg, AuthResp, marshal_cap, unmarshal_cap, unmarshal_caps, marshal_info,
  unmarshal_info, marshal_auth, unmarshal_auth, marshal_resp, unmarshal_resp,
}

abbrev pub CapFits : Cap → Type 0
CapFits c = c.version < 2 ^ 64

-- The numbers are of 64 bits and the identifier of 64 bytes.
pub record InfoFits (i : Info) : Type 0 where
  pub version : i.version < 2 ^ 64
  pub caps : All CapFits i.caps
  pub listen_port : i.listen_port < 2 ^ 64
  pub id : length i.id ≡ 64

module _ (r : Rlp) where
  open r use {
    Value, elems_of_array, elems_of_null_array, uint64_of_uint, bytes_of_bytes, bytes_of_length,
    parse_of_marshal,
  }

  unmarshal_cap-marshal_cap : (c : Cap) → CapFits c → unmarshal_cap r (marshal_cap r c) ≡ ok c
  unfolding unmarshal_cap marshal_cap
  unmarshal_cap-marshal_cap c h = simp (elems_of_array, bytes_of_bytes, uint64_of_uint c.version h)

  unmarshal_caps-map :
      (cs : List Cap) → All CapFits cs → unmarshal_caps r (map (marshal_cap r) cs) ≡ ok cs
  unfolding unmarshal_caps
  unmarshal_caps-map [] h = refl
  unmarshal_caps-map (c ∷ cs) h = simp (unmarshal_cap-marshal_cap c h.0, unmarshal_caps-map cs h.1)

  info_of_caps :
      (v l : ℕ) (n d : List ℕ) (cs : List Cap)
      → v < 2 ^ 64
      → l < 2 ^ 64
      → All CapFits cs
      → length d ≡ 64
      → let i : Info = record { version = v; name = n; caps = cs; listen_port = l; id = d } in
        unmarshal_info r (marshal_info r i) ≡ ok i
  unfolding unmarshal_info marshal_info
  info_of_caps v l n d [] hv hl hc hd =
      unfold unmarshal_caps in
      simp (
        parse_of_marshal,
        elems_of_array,
        elems_of_null_array,
        bytes_of_bytes,
        uint64_of_uint v hv,
        uint64_of_uint l hl,
        hd,
      )
  info_of_caps v l n d (c ∷ cs) hv hl hc hd = simp (
    parse_of_marshal,
    elems_of_array,
    bytes_of_bytes,
    uint64_of_uint v hv,
    uint64_of_uint l hl,
    unmarshal_caps-map (c ∷ cs) hc,
    hd,
  )

  -- The information of a node, with any capabilities, numbers of 64 bits and an identifier of 64
  -- bytes, is decoded as it was encoded.
  pub unmarshal_info-marshal_info :
      (i : Info) → InfoFits i → unmarshal_info r (marshal_info r i) ≡ ok i
  unmarshal_info-marshal_info i h =
      info_of_caps i.version i.listen_port i.name i.id i.caps h.version h.listen_port h.caps h.id

  -- An auth message with fields of the sizes of the protocol is decoded as it was encoded.
  pub unmarshal_auth-marshal_auth :
      (a : AuthMsg)
      → length a.signature ≡ 65
      → length a.initiator_pubkey ≡ 64
      → length a.nonce ≡ 32
      → a.version < 2 ^ 64
      → unmarshal_auth r a.got_plain (marshal_auth r a) ≡ ok a
  unfolding unmarshal_auth marshal_auth
  unmarshal_auth-marshal_auth a hs hp hn hv =
      simp (elems_of_array, bytes_of_length, hs, hp, hn, uint64_of_uint a.version hv)

  -- An auth response with fields of the sizes of the protocol is decoded as it was encoded.
  pub unmarshal_resp-marshal_resp :
      (a : AuthResp)
      → length a.random_pubkey ≡ 64
      → length a.nonce ≡ 32
      → a.version < 2 ^ 64
      → unmarshal_resp r (marshal_resp r a) ≡ ok a
  unfolding unmarshal_resp marshal_resp
  unmarshal_resp-marshal_resp a hp hn hv =
      simp (elems_of_array, bytes_of_length, hp, hn, uint64_of_uint a.version hv)
