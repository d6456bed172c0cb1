-- ===== src/Tests/Walk.antt =====
-- The walk of dnsdisc/dnsdisc.go over a root, a branch and a record.
use go_devp2p.Prelude.{
  ◌≡◌, refl, Option, some, List, [], ◌∷◌, Bytes, codes, has_prefix, replicate, if◌then◌else◌, ok,
  arith,
}
use go_devp2p.Rlp.Tree.{tree_rlp}
use go_devp2p.Enr.{marshal_text}
use go_devp2p.Dnsdisc.{
  Texts, Entry, Root, root, branch, enr_entry, parse_entry_root, entry_string, validate_hash,
}
use go_devp2p.Dnsdisc.RoundTrip.{
  TextLaws, branch_ok, enr_ok, hash_nil, hash_cons, parse_entry-entry_string,
}
use go_devp2p.Dnsdisc.Walk.{new_dns_discovery}
use go_devp2p.Dnsdisc.Served.{Names, nothing, leaf, node, Yields, next_node-Yields}
use go_devp2p.Tests.Codecs.{node_record, node_record-Ascending}
use go_devp2p.Tests.Dnsdisc.{texts, texts-Laws, hash}

abbrev scanning : Texts
scanning = record texts { scan_root = λ s. some (hash, hash, 1, 7 ∷ []) }

scanning-Laws : TextLaws scanning
scanning-Laws = record {
  base64 = texts-Laws.base64;
  base32 = texts-Laws.base32;
  decoded_chars = texts-Laws.decoded_chars;
  encoded_chars = texts-Laws.encoded_chars;
  sprintf = texts-Laws.sprintf;
}

abbrev leaf_hash : Bytes
leaf_hash = replicate 12 111

leaf_hash_valid : validate_hash tree_rlp scanning leaf_hash ≡ ok tt
unfolding validate_hash
leaf_hash_valid = refl

abbrev tree : Entry tree_rlp scanning
tree = branch (leaf_hash ∷ [])

abbrev tree_root : Root tree_rlp scanning
tree_root = record { eroot = hash; lroot = hash; sig = 7 ∷ []; seq = 1 }

abbrev root_txt : Bytes
root_txt = codes "enrtree-root:v1"

abbrev record_txt : Bytes
record_txt = entry_string tree_rlp scanning (enr_entry node_record)

abbrev tree_txt : Bytes
tree_txt = entry_string tree_rlp scanning tree

abbrev served : Bytes → Option (List Bytes)
served name =
    if has_prefix name hash
    then some (tree_txt ∷ [])
    else if has_prefix name leaf_hash
    then some (record_txt ∷ [])
    else some (root_txt ∷ [])

abbrev keccak : Bytes → Bytes
keccak text = if has_prefix text (codes "enr:") then replicate 12 11 else replicate 12 10

abbrev dns : Bytes
dns = codes "nodes"

root_found : served dns ≡ some (root_txt ∷ [])
unfolding has_prefix
root_found = refl

root_parsed : parse_entry_root tree_rlp scanning root_txt ≡ ok (root tree_root)
unfolding parse_entry_root has_prefix validate_hash
root_parsed = refl

tree_named : Names tree_rlp scanning keccak served dns hash tree
unfolding has_prefix entry_string
tree_named = record {
  text = tree_txt;
  prefix = replicate 12 10;
  found = refl;
  decoded = refl;
  parsed =
      parse_entry-entry_string tree_rlp scanning scanning-Laws tree
        (branch_ok leaf_hash [] (hash_cons leaf_hash_valid hash_nil));
  hashed = refl;
}

record_named : Names tree_rlp scanning keccak served dns leaf_hash (enr_entry node_record)
unfolding has_prefix entry_string marshal_text
record_named = record {
  text = record_txt;
  prefix = replicate 12 11;
  found = refl;
  decoded = refl;
  parsed =
      parse_entry-entry_string tree_rlp scanning scanning-Laws (enr_entry node_record)
        (enr_ok node_record (omega arith) node_record-Ascending);
  hashed = refl;
}

-- The theorem at a concrete input.
next_node-Yields_example :
    Yields tree_rlp scanning keccak served
      (new_dns_discovery tree_rlp scanning keccak served dns)
      (node_record ∷ [])
next_node-Yields_example =
    next_node-Yields tree_rlp scanning keccak served dns root_txt [] tree_root (node_record ∷ [])
      root_found root_parsed (node tree_named (leaf record_named nothing))
