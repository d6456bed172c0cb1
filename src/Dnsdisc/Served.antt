-- ===== src/Dnsdisc/Served.antt =====
-- The walk of dnsdisc/dnsdisc.go over a tree that is served gives its records, depth first.
use go_devp2p.Prelude.{
  ℕ, suc, ◌≡◌, refl, ap, ◌∙◌, true, Option, none, some, List, [], ◌∷◌, ◌++◌, Bytes, has_prefix, ok,
}
use go_devp2p.Rlp.{Rlp}
use go_devp2p.Enr.{Record}
use go_devp2p.Dnsdisc.{Texts, Root, Entry, root, branch, enr_entry, parse_entry, parse_entry_root}
use go_devp2p.Dnsdisc.Walk.{
  DnsDisc, visit, next_loop, next_node, with_root, resolve_root, new_dns_discovery, dot,
}

module _ (r : Rlp) (t : Texts) (keccak256 : Bytes → Bytes)
    (lookup_txt : Bytes → Option (List Bytes)) where
  -- A name of one text, which has the hash of the name.
  pub record Names (dns target : Bytes) (e : Entry r t) : Type 0 where
    pub text : Bytes
    pub prefix : Bytes
    pub found : lookup_txt (target ++ dot ∷ dns) ≡ some (text ∷ [])
    pub decoded : t.base32_decode target ≡ some prefix
    pub parsed : parse_entry r t text ≡ ok e
    pub hashed : has_prefix (keccak256 text) prefix ≡ true

  -- The names are served, and the records below them are these, in order.
  pub data Serves (dns : Bytes) : List Bytes → List (Record r) → Type 0 where
    nothing : Serves dns [] []
    leaf :
        {target : Bytes} {rest : List Bytes} {rec : Record r} {recs : List (Record r)}
        → Names dns target (enr_entry rec)
        → Serves dns rest recs
        → Serves dns (target ∷ rest) (rec ∷ recs)
    node :
        {target : Bytes} {hashes rest : List Bytes} {recs : List (Record r)}
        → Names dns target (branch hashes)
        → Serves dns (hashes ++ rest) recs
        → Serves dns (target ∷ rest) recs

  -- Calls of nextNode, each with rounds enough, give these records and then none.
  pub data Yields : DnsDisc r t keccak256 lookup_txt → List (Record r) → Type 0 where
    stop :
        (n : ℕ) (d d' : DnsDisc r t keccak256 lookup_txt)
        → next_node r t keccak256 lookup_txt n d ≡ (d', ok none)
        → Yields d []
    more :
        {rec : Record r} {recs : List (Record r)} (n : ℕ) (d d' : DnsDisc r t keccak256 lookup_txt)
        → next_node r t keccak256 lookup_txt n d ≡ (d', ok (some rec))
        → Yields d' recs
        → Yields d (rec ∷ recs)

  visit-branch :
      (dns target : Bytes) (hashes rest : List Bytes) (s : Names dns target (branch hashes))
      → visit r t keccak256 lookup_txt (s.text ∷ []) s.prefix rest ≡ (hashes ++ rest, ok none)
  unfolding visit
  visit-branch dns target hashes rest s = rw (visit, s.parsed, s.hashed) refl

  visit-enr_entry :
      (dns target : Bytes) (rec : Record r) (rest : List Bytes)
      (s : Names dns target (enr_entry rec))
      → visit r t keccak256 lookup_txt (s.text ∷ []) s.prefix rest ≡ (rest, ok (some rec))
  unfolding visit
  visit-enr_entry dns target rec rest s = rw (visit, s.parsed, s.hashed) refl

  loop_end :
      (dns : Bytes) (missing : List Bytes)
      → Serves dns missing []
      → (n : ℕ) × (next_loop r t keccak256 lookup_txt n dns missing ≡ ([], ok none))
  unfolding next_loop
  loop_end dns [] nothing = (1, refl)
  loop_end dns (target ∷ rest) (node {hashes = hashes} s below) =
      let (n, u) = loop_end dns (hashes ++ rest) below in
      (suc n, rw (next_loop, s.found, s.decoded, visit-branch dns target hashes rest s) u)

  loop_more :
      (dns : Bytes) (missing : List Bytes) (rec : Record r) (recs : List (Record r))
      → Serves dns missing (rec ∷ recs)
      → (n : ℕ) × (left : List Bytes) × (next_loop r t keccak256 lookup_txt n dns missing
          ≡ (left, ok (some rec)))
        × Serves dns left recs
  unfolding next_loop
  loop_more dns [] rec recs s = elim s [ ]
  loop_more dns (target ∷ rest) rec recs (leaf s others) = (
    1,
    rest,
    rw (next_loop, s.found, s.decoded, visit-enr_entry dns target rec rest s) refl,
    others,
  )
  loop_more dns (target ∷ rest) rec recs (node {hashes = hashes} s below) =
      let (n, left, u, others) = loop_more dns (hashes ++ rest) rec recs below in
      (
        suc n,
        left,
        rw (next_loop, s.found, s.decoded, visit-branch dns target hashes rest s) u,
        others,
      )

  abbrev walking :
      Bytes → Root r t → List Bytes → Option (Record r) → DnsDisc r t keccak256 lookup_txt
  walking dns e missing current = record {
    dns = dns;
    root = some e;
    missing = missing;
    current = current;
  }

  Serves-Yields :
      (dns : Bytes) (e : Root r t) (missing : List Bytes) (recs : List (Record r))
      (current : Option (Record r))
      → Serves dns missing recs
      → Yields (walking dns e missing current) recs
  unfolding next_node
  Serves-Yields dns e missing [] current s =
      let (n, u) = loop_end dns missing s in
      stop n (walking dns e missing current) (walking dns e [] current) (rw (next_node, u) refl)
  Serves-Yields dns e missing (rec ∷ recs) current s =
      let (n, left, u, others) = loop_more dns missing rec recs s in
      more n (walking dns e missing current) (walking dns e left current) (rw (next_node, u) refl)
        (Serves-Yields dns e left recs current others)

  -- the first call, which resolves the root
  module _ (dns text : Bytes) (texts : List Bytes) (e : Root r t)
      (found : lookup_txt dns ≡ some (text ∷ texts))
      (parsed : parse_entry_root r t text ≡ ok (root e)) where
    abbrev start : DnsDisc r t keccak256 lookup_txt
    start = new_dns_discovery r t keccak256 lookup_txt dns

    resolved :
        resolve_root r t keccak256 lookup_txt start ≡ (walking dns e (e.eroot ∷ []) none, ok tt)
    unfolding resolve_root new_dns_discovery
    resolved = rw (resolve_root, found, parsed) refl

    first_call :
        (n : ℕ)
        → next_node r t keccak256 lookup_txt n start
          ≡ next_node r t keccak256 lookup_txt n (walking dns e (e.eroot ∷ []) none)
    unfolding next_node new_dns_discovery
    first_call n = ap (with_root r t keccak256 lookup_txt n) resolved

    from_root :
        (recs : List (Record r))
        → Yields (walking dns e (e.eroot ∷ []) none) recs
        → Yields start recs
    from_root [] (stop n _ d u) = stop n start d (first_call n ∙ u)
    from_root (rec ∷ recs) (more n _ d u others) = more n start d (first_call n ∙ u) others

  -- Where the root is served, and every name below it has one text, whose Keccak digest starts with
  -- what the name decodes to and which parses as a branch or a record, calls of nextNode on a new
  -- DnsDisc, each with rounds enough, give the records of the tree depth first, in the order of the
  -- branches, and then none.
  pub next_node-Yields :
      (dns text : Bytes) (texts : List Bytes) (e : Root r t) (recs : List (Record r))
      → lookup_txt dns ≡ some (text ∷ texts)
      → parse_entry_root r t text ≡ ok (root e)
      → Serves dns (e.eroot ∷ []) recs
      → Yields (new_dns_discovery r t keccak256 lookup_txt dns) recs
  next_node-Yields dns text texts e recs found parsed s =
      from_root dns text texts e found parsed recs (Serves-Yields dns e (e.eroot ∷ []) recs none s)
