-- ===== src/Discv4/Messages/RoundTrip.antt =====
-- The packets of discovery/discv4.go encoded and then decoded.
use go_devp2p.Prelude.{ℕ, ◌^◌, ◌<◌, ◌≡◌, refl, List, [], ◌∷◌, map, ok, All, arith, u16}
use go_devp2p.Rlp.{Rlp}
use go_devp2p.Discv4.Messages.{
  RpcEndpoint, RpcNode, PingRequest, FindNodeRequest, NeighborsResponse, marshal_endpoint,
  unmarshal_endpoint, marshal_node, unmarshal_node, marshal_ping, unmarshal_ping, marshal_find_node,
  unmarshal_find_node, unmarshal_nodes, marshal_neighbors, unmarshal_neighbors,
}

-- The ports fit 16 bits.
abbrev pub EndpointFits : RpcEndpoint → Type 0
EndpointFits e = (e.udp < 2 ^ 16) × (e.tcp < 2 ^ 16)

abbrev pub NodeFits : RpcNode → Type 0
NodeFits n = (n.udp < 2 ^ 16) × (n.tcp < 2 ^ 16)

u16_small : (n : ℕ) → n < 2 ^ 16 → u16 n ≡ n
u16_small n h = omega arith

u64_small : (n : ℕ) → n < 2 ^ 16 → n < 2 ^ 64
u64_small n h = omega arith

module _ (r : Rlp) where
  open r use {Value, new_array, elems_of_array, elems_of_null_array, uint64_of_uint, bytes_of_bytes}

  pub unmarshal_endpoint-marshal_endpoint :
      (e : RpcEndpoint) → EndpointFits e → unmarshal_endpoint r (marshal_endpoint r e) ≡ ok e
  unfolding unmarshal_endpoint marshal_endpoint
  unmarshal_endpoint-marshal_endpoint e h = simp (
    elems_of_array,
    bytes_of_bytes,
    uint64_of_uint e.udp (u64_small e.udp h.0),
    uint64_of_uint e.tcp (u64_small e.tcp h.1),
    u16_small e.udp h.0,
    u16_small e.tcp h.1,
  )

  pub unmarshal_node-marshal_node :
      (n : RpcNode) → NodeFits n → unmarshal_node r (marshal_node r n) ≡ ok n
  unfolding unmarshal_node marshal_node
  unmarshal_node-marshal_node n h = simp (
    elems_of_array,
    bytes_of_bytes,
    uint64_of_uint n.udp (u64_small n.udp h.0),
    uint64_of_uint n.tcp (u64_small n.tcp h.1),
    u16_small n.udp h.0,
    u16_small n.tcp h.1,
  )

  -- A ping with ports of 16 bits and numbers of 64 bits is decoded as it was encoded.
  pub unmarshal_ping-marshal_ping :
      (p : PingRequest)
      → EndpointFits p.from
      → EndpointFits p.to
      → p.version < 2 ^ 64
      → p.expiration < 2 ^ 64
      → unmarshal_ping r (marshal_ping r p) ≡ ok p
  unfolding unmarshal_ping marshal_ping
  unmarshal_ping-marshal_ping p hf ht hv he = simp (
    elems_of_array,
    uint64_of_uint p.version hv,
    uint64_of_uint p.expiration he,
    unmarshal_endpoint-marshal_endpoint p.from hf,
    unmarshal_endpoint-marshal_endpoint p.to ht,
  )

  -- A findnode request with an expiration of 64 bits is decoded as it was encoded.
  pub unmarshal_find_node-marshal_find_node :
      (f : FindNodeRequest)
      → f.expiration < 2 ^ 64
      → unmarshal_find_node r (marshal_find_node r f) ≡ ok f
  unfolding unmarshal_find_node marshal_find_node
  unmarshal_find_node-marshal_find_node f h =
      simp (elems_of_array, bytes_of_bytes, uint64_of_uint f.expiration h)

  unmarshal_nodes-map :
      (ns : List RpcNode) → All NodeFits ns → unmarshal_nodes r (map (marshal_node r) ns) ≡ ok ns
  unfolding unmarshal_nodes
  unmarshal_nodes-map [] h = refl
  unmarshal_nodes-map (n ∷ ns) h =
      simp (unmarshal_node-marshal_node n h.0, unmarshal_nodes-map ns h.1)

  -- A neighbors packet, with any number of nodes with ports of 16 bits and an expiration of 64
  -- bits, is decoded as it was encoded.
  pub unmarshal_neighbors-marshal_neighbors :
      (n : NeighborsResponse)
      → All NodeFits n.nodes
      → n.expiration < 2 ^ 64
      → unmarshal_neighbors r (marshal_neighbors r n) ≡ ok n
  unmarshal_neighbors-marshal_neighbors n h he = go n.nodes n.expiration h he
    where
      go :
          (ns : List RpcNode) (e : ℕ)
          → All NodeFits ns
          → e < 2 ^ 64
          → unmarshal_neighbors r (marshal_neighbors r (record { nodes = ns; expiration = e }))
            ≡ ok (record { nodes = ns; expiration = e })
      go [] e h he =
          unfold unmarshal_neighbors marshal_neighbors unmarshal_nodes in
          simp (elems_of_array, elems_of_null_array, uint64_of_uint e he)
      go (m ∷ ms) e h he =
          unfold unmarshal_neighbors marshal_neighbors in
          simp (elems_of_array, uint64_of_uint e he, unmarshal_nodes-map (m ∷ ms) h)
