-- ===== src/Discv4/Backend/Nodes.antt =====
-- What a Backend of discovery/discv4.go is like between two calls: every peer of the routing table
-- is a known node.
use mathlib.Core.Path.{subst, ap₂}
use go_devp2p.Prelude.{
  ◌<◌, ◌≤◌, ◌≡◌, refl, ap, sym, ◌∙◌, inl, inr, false, Option, none, some, List, [], ◌∷◌, map, Bytes,
  bytes_eq, bytes_eq_iff, length, ok, All, Bool-cases, Option-cases, some_inj, arith, if◌then◌else◌,
}
use go_devp2p.Crypto.Recover.{Laws}
use go_devp2p.Kademlia.Bucket.{Entry}
use go_devp2p.Kademlia.Sorting.{PeerDistance}
use go_devp2p.Kademlia.Table.{Table, Rejection, update, new_routing_table}
use go_devp2p.Kademlia.Table.Wf.{
  Digest, IsWf, Holds, new_routing_table-IsWf, new_routing_table-empty,
}
use go_devp2p.Kademlia.Table.Members.{update-Updates}
use go_devp2p.Kademlia.Table.Nearest.{length-map, nearest_peers-Nearest, Nearest, IsFrom}
use go_devp2p.Discv4.Hex.{encode_to_hex}
use go_devp2p.Discv4.Peer.{Peer}
use go_devp2p.Discv4.Backend.{
  Env, Backend, bucket_size, hash, get_node, put_node, refresh, update_peer, new_backend,
  known_peers, get_peer, nearest_peers_from_target,
}

bytes_eq_sym : (xs ys : Bytes) → bytes_eq xs ys ≡ bytes_eq ys xs
unfolding bytes_eq
bytes_eq_sym [] [] = refl
bytes_eq_sym [] (y ∷ ys) = refl
bytes_eq_sym (x ∷ xs) [] = refl
bytes_eq_sym (x ∷ xs) (y ∷ ys) = ground (arith, bytes_eq_sym xs ys)

-- The map of nodes after a write.
pub get_node-put_node :
    (id : Bytes) (q : Peer) (other : Bytes) (ns : List (Bytes × Peer))
    → get_node other (put_node id q ns) ≡ (if bytes_eq id other then some q else get_node other ns)
unfolding get_node put_node
get_node-put_node id q other [] = refl
get_node-put_node id q other ((k, p) ∷ rest) = elim (Bool-cases (bytes_eq k id)) [
  | inl e ↦ rw (e, (bytes_eq_iff k id).0 e) (ground arith)
  | inr e ↦ elim (Bool-cases (bytes_eq k other)) [
    | inr f ↦ rw (e, f) (get_node-put_node id q other rest)
    | inl f ↦
        let here = (bytes_eq_iff k other).0 f in
        let apart : bytes_eq id other ≡ false =
          subst (λ x. bytes_eq id x ≡ false) here (bytes_eq_sym id k ∙ e) in
        rw (e, f, apart) refl
  ]
]

-- A backend between two calls: the table is well formed, and each of its peers is a known node; a
-- node is kept under its own identifier.
pub record IsValid (w : Env) (b : Backend) : Type 0 where
  pub wf : IsWf (hash w) 32 b.table
  pub room : 0 < b.table.bucketsize
  pub backed : (e : Entry) → Holds b.table e → (p : Peer) × (get_node e.id b.nodes ≡ some p)
  pub named : (id : Bytes) (p : Peer) → get_node id b.nodes ≡ some p → p.id ≡ id

-- What updatePeer leaves: the peer under its identifier, with the new port and, if it brings one,
-- the new time, and every other node as it was.
abbrev pub merged : Peer → Option Peer → Peer
merged p none = p
merged p (some known) = refresh p known

pub record UpdatesPeer (w : Env) (p : Peer) (b b' : Backend) : Type 0 where
  pub valid : IsValid w b'
  pub stored :
      (id : Bytes)
      → get_node id b'.nodes ≡ (
          if bytes_eq p.id id then some (merged p (get_node p.id b.nodes)) else get_node id b.nodes)
  pub same : b' ≡ record b { table = b'.table; nodes = b'.nodes }

-- A known node is known after a write.
kept_node :
    (p q : Peer) (id : Bytes) (b : Backend)
    → (x : Peer) × (get_node id b.nodes ≡ some x)
    → (x : Peer) × (get_node id (put_node p.id q b.nodes) ≡ some x)
kept_node p q id b (x, at) = elim (Bool-cases (bytes_eq p.id id)) [
  | inl here ↦ (q, get_node-put_node p.id q id b.nodes ∙ rw here refl)
  | inr there ↦ (x, get_node-put_node p.id q id b.nodes ∙ rw there at)
]

-- What is stored under an identifier is of that peer.
merged-id :
    (p : Peer) (known : Option Peer)
    → ((x : Peer) → known ≡ some x → x.id ≡ p.id)
    → (merged p known).id ≡ p.id
unfolding refresh
merged-id p none h = refl
merged-id p (some x) h = h x refl

module _ (w : Env) (l : Laws w.curve) where
  digest : Digest (hash w) 32
  digest = record { sized = l.keccak_size }

  -- updatePeer, of a table that Update turns into `t`
  update_peer-table :
      (p : Peer) (b : Backend) (t : Table) (r : Option Rejection)
      → update (hash w) p.id b.table ≡ ok (t, r)
      → update_peer w p b
        ≡ ok (record b {
          table = t;
          nodes = put_node p.id (merged p (get_node p.id b.nodes)) b.nodes;
        })
  unfolding update_peer
  update_peer-table p b t r e =
      rw (update_peer, e)
        (elim (Option-cases (get_node p.id b.nodes)) [
          | inl f ↦ rw f refl
          | inr (known, f) ↦ rw f refl
        ])

  -- On a valid backend updatePeer does not panic and leaves a valid one.
  pub update_peer-UpdatesPeer :
      (p : Peer) (b : Backend)
      → IsValid w b
      → (b' : Backend) × (update_peer w p b ≡ ok b') × UpdatesPeer w p b b'
  update_peer-UpdatesPeer p b v =
      let (t, r, e, u) = update-Updates (hash w) 32 digest p.id b.table v.wf v.room in
      let q = merged p (get_node p.id b.nodes) in
      let nodes = put_node p.id q b.nodes in
      let stored = λ (id : Bytes). get_node-put_node p.id q id b.nodes in
      (
        record b { table = t; nodes = nodes },
        update_peer-table p b t r e,
        record {
          valid = record {
            wf = u.wf;
            room = rw u.same_bucketsize v.room;
            backed = λ x h. elim (u.sound x h) [
              | inl old ↦ kept_node p q x.id b (v.backed x old)
              | inr new ↦ (
                q,
                stored x.id
                    ∙ (let same = bytes_eq_iff p.id x.id in
                        rw (same.1 (sym (ap (λ (y : Entry). y.id) new.0))) refl),
              )
            ];
            named = λ id x at. elim (Bool-cases (bytes_eq p.id id)) [
              | inl here ↦
                  let found : some q ≡ some x = sym (stored id ∙ rw here refl) ∙ at in
                  sym (ap (λ (y : Peer). y.id) (some_inj found))
                  ∙ merged-id p (get_node p.id b.nodes) (v.named p.id)
                  ∙ (bytes_eq_iff p.id id).0 here
              | inr there ↦ v.named id x (sym (stored id ∙ rw there refl) ∙ at)
            ];
          };
          stored = stored;
          same = refl;
        },
      )

  new_backend-empty : (local : Peer) (e : Entry) → Holds (new_backend w local).table e → ⊥
  unfolding new_backend
  new_backend-empty local e h = new_routing_table-empty (hash w) bucket_size local.id e h

  -- A new backend is valid.
  pub new_backend-IsValid : (local : Peer) → IsValid w (new_backend w local)
  unfolding new_backend get_node new_routing_table
  new_backend-IsValid local = record {
    wf = new_routing_table-IsWf (hash w) 32 digest bucket_size local.id;
    room = omega arith;
    backed = λ e h. absurd (new_backend-empty local e h);
    named = λ id p at. cc;
  }

known_peers-backed :
    (b : Backend) (ids : List Bytes)
    → All (λ id. (p : Peer) × (get_node id b.nodes ≡ some p) × (p.id ≡ id)) ids
    → (ps : List Peer) × (known_peers ids b ≡ ok ps)
      × (map (λ (p : Peer). p.id) ps ≡ ids)
      × All (λ p. get_node p.id b.nodes ≡ some p) ps
unfolding known_peers get_peer
known_peers-backed b [] h = ([], refl, refl, tt)
known_peers-backed b (id ∷ ids) ((p, at, same), h) =
    let (ps, e, names, known) = known_peers-backed b ids h in
    (
      p ∷ ps,
      rw (known_peers, get_peer, at, e) refl,
      ap₂ (λ x xs. x ∷ xs) same names,
      (ap (λ x. get_node x b.nodes) same ∙ at, known),
    )

module _ (w : Env) (l : Laws w.curve) (b : Backend) (v : IsValid w b) (target : Bytes) where
  abbrev Known : Bytes → Type 0
  Known id = (p : Peer) × (get_node id b.nodes ≡ some p) × (p.id ≡ id)

  from-Known :
      (ds : List PeerDistance)
      → All (IsFrom (hash w (encode_to_hex target)) b.table) ds
      → All Known (map (λ (d : PeerDistance). d.p) ds)
  from-Known [] h = tt
  from-Known (d ∷ ds) (f, h) =
      let (p, at) = v.backed f.entry f.held in
      let at' = ap (λ x. get_node x b.nodes) f.name ∙ at in
      ((p, at', v.named d.p p at'), from-Known ds h)

  -- On a valid backend NearestPeersFromTarget ends without a panic or an error: it returns at most
  -- 16 nodes, all of them known, which are those that the table names, in the order of the
  -- distances of their identifiers from the target. The primitives have their laws.
  pub nearest_peers_from_target_lem :
      (ps : List Peer) × (nearest_peers_from_target w target b ≡ ok (ok ps))
      × (length ps ≤ 16)
      × All (λ p. get_node p.id b.nodes ≡ some p) ps
      × Nearest (hash w (encode_to_hex target)) 16 b.table (map (λ (p : Peer). p.id) ps)
  unfolding nearest_peers_from_target
  nearest_peers_from_target_lem =
      let (ids, e, near) =
        nearest_peers-Nearest (hash w) 32 (digest w l) (encode_to_hex target) b.table v.wf
          bucket_size in
      let all : All Known ids =
        subst (λ x. All Known x) (sym near.names) (from-Known near.distances near.sound) in
      let (ps, f, names, known) = known_peers-backed b ids all in
      (
        ps,
        rw (nearest_peers_from_target, e, f) refl,
        omega (arith, length-map (λ (p : Peer). p.id) ps, ap length names, near.bounded),
        known,
        subst (λ x. Nearest (hash w (encode_to_hex target)) 16 b.table x) (sym names) near,
      )
