-- ===== src/Discv4/Messages.antt =====
-- The packets of discovery/discv4.go and their RLP codecs.
pub mod RoundTrip
use go_devp2p.Prelude.{
  ℕ, ◌<◌, Bool, List, [], ◌∷◌, ◌++◌, map, Bytes, length, ltb, u16, if◌then◌else◌, Result, ok, err,
  ◌>>=◌, ◌>>◌, guard, not,
}
use go_devp2p.Rlp.{Rlp, CodecError, bad, Decoded, array_or_null, elems, uint64, bytes, elem}

-- rpcEndpoint; the ports are uint16
pub record RpcEndpoint : Type 0 where
  pub ip : Bytes
  pub udp : ℕ
  pub tcp : ℕ

pub record RpcNode : Type 0 where
  pub ip : Bytes
  pub udp : ℕ
  pub tcp : ℕ
  pub id : Bytes

pub record PingRequest : Type 0 where
  pub version : ℕ
  pub from : RpcEndpoint
  pub to : RpcEndpoint
  pub expiration : ℕ

pub record PongResponse : Type 0 where
  pub to : RpcEndpoint
  pub reply_tok : Bytes
  pub expiration : ℕ

pub record FindNodeRequest : Type 0 where
  pub target : Bytes
  pub expiration : ℕ

pub record NeighborsResponse : Type 0 where
  pub nodes : List RpcNode
  pub expiration : ℕ

module _ (r : Rlp) where
  open r use {Value, new_array, new_uint, new_bytes}

  -- rpcEndpoint.MarshalRLP and UnmarshalRLP
  unfoldable pub marshal_endpoint : RpcEndpoint → Value
  marshal_endpoint e = new_array (new_bytes e.ip ∷ new_uint e.udp ∷ new_uint e.tcp ∷ [])

  unfoldable pub unmarshal_endpoint : Value → Decoded RpcEndpoint
  unmarshal_endpoint v = do
    vs ← elems r v
    ip ← (do x ← elem r vs 0; bytes r x)
    udp ← (do x ← elem r vs 1; uint64 r x)
    tcp ← (do x ← elem r vs 2; uint64 r x)
    ok (record { ip = ip; udp = u16 udp; tcp = u16 tcp })

  -- rpcNode.MarshalRLP and UnmarshalRLP
  unfoldable pub marshal_node : RpcNode → Value
  marshal_node n =
      new_array (new_bytes n.ip ∷ new_uint n.udp ∷ new_uint n.tcp ∷ new_bytes n.id ∷ [])

  unfoldable pub unmarshal_node : Value → Decoded RpcNode
  unmarshal_node v = do
    vs ← elems r v
    ip ← (do x ← elem r vs 0; bytes r x)
    udp ← (do x ← elem r vs 1; uint64 r x)
    tcp ← (do x ← elem r vs 2; uint64 r x)
    id ← (do x ← elem r vs 3; bytes r x)
    ok (record { ip = ip; udp = u16 udp; tcp = u16 tcp; id = id })

  -- pingRequest.MarshalRLP and UnmarshalRLP
  unfoldable pub marshal_ping : PingRequest → Value
  marshal_ping p = new_array (
      new_uint p.version
      ∷ marshal_endpoint p.from
      ∷ marshal_endpoint p.to
      ∷ new_uint p.expiration
      ∷ [])

  unfoldable pub unmarshal_ping : Value → Decoded PingRequest
  unmarshal_ping v = do
    vs ← elems r v
    guard (not (ltb (length vs) 4)) bad
    version ← (do x ← elem r vs 0; uint64 r x)
    from ← (do x ← elem r vs 1; unmarshal_endpoint x)
    to ← (do x ← elem r vs 2; unmarshal_endpoint x)
    expiration ← (do x ← elem r vs 3; uint64 r x)
    ok (record { version = version; from = from; to = to; expiration = expiration })

  -- pongResponse.MarshalRLP; the program never decodes a pong
  unfoldable pub marshal_pong : PongResponse → Value
  marshal_pong p =
      new_array (marshal_endpoint p.to ∷ new_bytes p.reply_tok ∷ new_uint p.expiration ∷ [])

  -- findNodeRequest.MarshalRLP and UnmarshalRLP
  unfoldable pub marshal_find_node : FindNodeRequest → Value
  marshal_find_node f = new_array (new_bytes f.target ∷ new_uint f.expiration ∷ [])

  unfoldable pub unmarshal_find_node : Value → Decoded FindNodeRequest
  unmarshal_find_node v = do
    vs ← elems r v
    guard (not (ltb (length vs) 2)) bad
    target ← (do x ← elem r vs 0; bytes r x)
    expiration ← (do x ← elem r vs 1; uint64 r x)
    ok (record { target = target; expiration = expiration })

  -- the loop of neighborsResponse.UnmarshalRLP
  unfoldable pub unmarshal_nodes : List Value → Decoded (List RpcNode)
  unmarshal_nodes [] = ok []
  unmarshal_nodes (v ∷ vs) = do
    node ← unmarshal_node v
    nodes ← unmarshal_nodes vs
    ok (node ∷ nodes)

  -- neighborsResponse.MarshalRLP and UnmarshalRLP
  unfoldable pub marshal_neighbors : NeighborsResponse → Value
  marshal_neighbors n =
      new_array (array_or_null r (map marshal_node n.nodes) ∷ new_uint n.expiration ∷ [])

  unfoldable pub unmarshal_neighbors : Value → Decoded NeighborsResponse
  unmarshal_neighbors v = do
    vs ← elems r v
    guard (not (ltb (length vs) 2)) bad
    list ← (do x ← elem r vs 0; elems r x)
    nodes ← unmarshal_nodes list
    expiration ← (do x ← elem r vs 1; uint64 r x)
    ok (record { nodes = nodes; expiration = expiration })
