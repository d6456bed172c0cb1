-- ===== src/Dnsdisc.antt =====
-- dnsdisc/entries.go: the entries of a tree of node records in DNS. A text is its bytes, and a public
-- key is the bytes of its coordinates.
pub mod Splits
pub mod RoundTrip
pub mod Walk
pub mod Served
use go_devp2p.Prelude.{
  ℕ, zero, suc, Bool, true, false, not, ◌||◌, Option, List, [], ◌∷◌, ◌++◌, Bytes, codes, has_prefix,
  length, drop, ltb, ◌==◌, if◌then◌else◌, Result, ok, err, ◌>>=◌, ◌>>◌, guard, from_option,
}
use go_devp2p.Rlp.{Rlp}
use go_devp2p.Enr.{RecordError, Record, marshal_text, unmarshal_text}
use go_devp2p.Discv4.Peer.{decimal}

-- what the code calls: base64 and base32, the compression of keys, Sprintf of a format without
-- arguments, and Sscanf with the format of a root
pub record Texts : Type 0 where
  pub base64_encode : Bytes → Bytes
  pub base64_decode : Bytes → Option Bytes
  pub base32_encode : Bytes → Bytes
  pub base32_decode : Bytes → Option Bytes
  pub compress_pub_key : Bytes → Bytes
  pub parse_compressed_pub_key : Bytes → Option Bytes
  pub sprintf : Bytes → Bytes
  pub scan_root : Bytes → Option (Bytes × Bytes × ℕ × Bytes)

pub data EntryError : Type 0 where
  bad_prefix bad_base32 bad_length bad_format bad_key bad_root unexpected : EntryError
  bad_record : RecordError → EntryError

abbrev pub comma : ℕ
comma = 44

abbrev pub at_sign : ℕ
at_sign = 64

-- strings.Split and strings.Join, with a separator of one byte
abbrev pub onto : ℕ → List Bytes → List Bytes
onto x [] = (x ∷ []) ∷ []
onto x (part ∷ parts) = (x ∷ part) ∷ parts

unfoldable pub split : ℕ → Bytes → List Bytes
split c [] = [] ∷ []
split c (x ∷ xs) = let rest = split c xs in if x == c then [] ∷ rest else onto x rest

unfoldable pub join : ℕ → List Bytes → Bytes
join c [] = []
join c (part ∷ []) = part
join c (part ∷ next ∷ parts) = part ++ c ∷ join c (next ∷ parts)

unfoldable pub check_and_trim_prefix : Bytes → Bytes → Result EntryError Bytes
check_and_trim_prefix s prefix =
    if has_prefix s prefix then ok (drop (length prefix) s) else err bad_prefix

abbrev pub record_of {ℓ} : {A : Type ℓ} → Result RecordError A → Result EntryError A
record_of (ok a) = ok a
record_of (err e) = err (bad_record e)

module _ (r : Rlp) (t : Texts) where
  open t use {
    base64_encode, base64_decode, base32_encode, base32_decode, compress_pub_key,
    parse_compressed_pub_key, sprintf, scan_root,
  }

  pub record Root : Type 0 where
    pub eroot : Bytes
    pub lroot : Bytes
    pub sig : Bytes
    pub seq : ℕ

  pub data Entry : Type 0 where
    root : Root → Entry
    branch : List Bytes → Entry
    enr_entry : Record r → Entry
    link : Bytes → Bytes → Entry

  -- the String methods; a sequence number has at most twenty digits
  abbrev pub root_string : Root → Bytes
  root_string e =
      codes "enrtree-root:v1 e="
      ++ e.eroot
      ++ codes " l="
      ++ e.lroot
      ++ codes " seq="
      ++ decimal 19 e.seq
      ++ codes " sig="
      ++ e.sig

  abbrev pub branch_string : List Bytes → Bytes
  branch_string hashes = sprintf (codes "enrtree-branch:" ++ join comma hashes)

  abbrev pub enr_string : Record r → Bytes
  enr_string rec = marshal_text r base64_encode base64_decode rec

  abbrev pub link_string : Bytes → Bytes → Bytes
  link_string key domain =
      codes "enrtree://" ++ base32_encode (compress_pub_key key) ++ at_sign ∷ domain

  unfoldable pub entry_string : Entry → Bytes
  entry_string (root e) = root_string e
  entry_string (branch hashes) = branch_string hashes
  entry_string (enr_entry rec) = enr_string rec
  entry_string (link key domain) = link_string key domain

  unfoldable pub validate_hash : Bytes → Result EntryError (Unit {0})
  validate_hash s = do
    buf ← from_option bad_base32 (base32_decode s)
    guard (not (ltb (length buf) 12 || ltb 32 (length buf))) bad_length

  unfoldable pub validate_hashes : List Bytes → Result EntryError (List Bytes)
  validate_hashes [] = ok []
  validate_hashes (hash ∷ hashes) = do
    _ ← validate_hash hash
    rest ← validate_hashes hashes
    ok (hash ∷ rest)

  unfoldable pub parse_entry_root : Bytes → Result EntryError Entry
  parse_entry_root s = do
    guard (has_prefix s (codes "enrtree-root:v1")) bad_prefix
    (eroot, lroot, seq, sig) ← from_option bad_root (scan_root s)
    _ ← validate_hash eroot
    _ ← validate_hash lroot
    ok (root (record { eroot = eroot; lroot = lroot; sig = sig; seq = seq }))

  unfoldable pub parse_branch_root : Bytes → Result EntryError Entry
  parse_branch_root s = do
    trimmed ← check_and_trim_prefix s (codes "enrtree-branch:")
    hashes ← validate_hashes (split comma trimmed)
    ok (branch hashes)

  unfoldable pub parse_enr : Bytes → Result EntryError Entry
  parse_enr s = do
    rec ← record_of (unmarshal_text r base64_encode base64_decode s)
    ok (enr_entry rec)

  unfoldable pub two_parts : List Bytes → Result EntryError (Bytes × Bytes)
  two_parts (a ∷ b ∷ []) = ok (a, b)
  two_parts [] = err bad_format
  two_parts (a ∷ []) = err bad_format
  two_parts (a ∷ b ∷ c ∷ ps) = err bad_format

  unfoldable pub parse_entry_link : Bytes → Result EntryError Entry
  parse_entry_link s = do
    trimmed ← check_and_trim_prefix s (codes "enrtree://")
    (text, domain) ← two_parts (split at_sign trimmed)
    compressed ← from_option bad_base32 (base32_decode text)
    key ← from_option bad_key (parse_compressed_pub_key compressed)
    ok (link key domain)

  unfoldable pub parse_entry : Bytes → Result EntryError Entry
  parse_entry s =
      if has_prefix s (codes "enr:")
      then parse_enr s
      else if has_prefix s (codes "enrtree-branch:")
      then parse_branch_root s
      else if has_prefix s (codes "enrtree://")
      then parse_entry_link s
      else if has_prefix s (codes "enrtree-root:v1")
      then parse_entry_root s
      else err unexpected
