-- ===== src/Dnsdisc/Walk.antt =====
-- dnsdisc/dnsdisc.go: the walk over a tree of entries. The resolver and Keccak are parameters; a
-- lookup gives the texts of a name, or none where it fails.
use go_devp2p.Prelude.{
  ℕ, zero, suc, Bool, true, false, Option, none, some, List, [], ◌∷◌, ◌++◌, Bytes, has_prefix,
  Result, ok, err,
}
use go_devp2p.Rlp.{Rlp}
use go_devp2p.Enr.{Record}
use go_devp2p.Dnsdisc.{
  Texts, EntryError, Root, root, branch, enr_entry, link, parse_entry, parse_entry_root,
}

-- `diverges`: the loop is given too few rounds
pub data WalkError : Type 0 where
  lookup_failed not_base32 incorrect_hash panic diverges : WalkError
  bad_entry : EntryError → WalkError

abbrev pub dot : ℕ
dot = 46

module _ (r : Rlp) (t : Texts) (keccak256 : Bytes → Bytes)
    (lookup_txt : Bytes → Option (List Bytes)) where
  pub record DnsDisc : Type 0 where
    pub dns : Bytes
    pub root : Option (Root r t)
    pub missing : List Bytes
    pub current : Option (Record r)

  -- NewDnsDiscovery
  unfoldable pub new_dns_discovery : Bytes → DnsDisc
  new_dns_discovery dns_root = record { dns = dns_root; root = none; missing = []; current = none }

  -- resolveRoot
  unfoldable pub resolve_root : DnsDisc → DnsDisc × Result WalkError (Unit {0})
  resolve_root d = elim (lookup_txt d.dns) [
    | none ↦ (d, err lookup_failed)
    | some [] ↦ (d, err panic)
    | some (text ∷ texts) ↦ elim (parse_entry_root r t text) [
      | err e ↦ (d, err (bad_entry e))
      | ok (root e) ↦ (record d { root = some e; missing = e.eroot ∷ [] }, ok tt)
      | ok (branch hashes) ↦ (d, err panic)
      | ok (enr_entry rec) ↦ (d, err panic)
      | ok (link key domain) ↦ (d, err panic)
    ]
  ]

  -- the texts of one name: what is missing after them, and a record where one of them has it
  unfoldable pub visit :
      List Bytes → Bytes → List Bytes → List Bytes × Result WalkError (Option (Record r))
  visit [] prefix missing = (missing, ok none)
  visit (text ∷ texts) prefix missing = elim (parse_entry r t text) [
    | err e ↦ (missing, err (bad_entry e))
    | ok res ↦ elim (has_prefix (keccak256 text) prefix) [
      | false ↦ (missing, err incorrect_hash)
      | true ↦ elim res [
        | branch hashes ↦ visit texts prefix (hashes ++ missing)
        | enr_entry rec ↦ (missing, ok (some rec))
        | root e ↦ visit texts prefix missing
        | link key domain ↦ visit texts prefix missing
      ]
    ]
  ]

  -- the loop goes on if a name had no record
  abbrev pub onward :
      (List Bytes → List Bytes × Result WalkError (Option (Record r)))
      → List Bytes × Result WalkError (Option (Record r))
      → List Bytes × Result WalkError (Option (Record r))
  onward loop (left, err e) = (left, err e)
  onward loop (left, ok (some rec)) = (left, ok (some rec))
  onward loop (left, ok none) = loop left

  -- the loop of nextNode
  unfoldable pub next_loop :
      ℕ → Bytes → List Bytes → List Bytes × Result WalkError (Option (Record r))
  next_loop zero dns missing = (missing, err diverges)
  next_loop (suc fuel) dns [] = ([], ok none)
  next_loop (suc fuel) dns (target ∷ missing) = elim (lookup_txt (target ++ dot ∷ dns)) [
    | none ↦ (missing, err lookup_failed)
    | some texts ↦ elim (t.base32_decode target) [
      | none ↦ (missing, err not_base32)
      | some prefix ↦ onward (next_loop fuel dns) (visit texts prefix missing)
    ]
  ]

  -- nextNode, behind the root
  abbrev pub with_root :
      ℕ → DnsDisc × Result WalkError (Unit {0}) → DnsDisc × Result WalkError (Option (Record r))
  with_root fuel (d, err e) = (d, err e)
  with_root fuel (d, ok _) =
      let (left, res) = next_loop fuel d.dns d.missing in (record d { missing = left }, res)

  -- nextNode
  unfoldable pub next_node : ℕ → DnsDisc → DnsDisc × Result WalkError (Option (Record r))
  next_node fuel d = with_root fuel (elim d.root [ none ↦ resolve_root d | some e ↦ (d, ok tt) ])

  -- Has; an error is only printed
  unfoldable pub has : ℕ → DnsDisc → DnsDisc × Bool
  has fuel d =
      let (d1, res) = next_node fuel d in
      elim res [
        | err e ↦ (record d1 { current = none }, false)
        | ok none ↦ (record d1 { current = none }, false)
        | ok (some rec) ↦ (record d1 { current = some rec }, true)
      ]
