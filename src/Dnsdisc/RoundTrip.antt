-- ===== src/Dnsdisc/RoundTrip.antt =====
-- The text of an entry of dnsdisc/entries.go is parsed back to the entry.
use go_devp2p.Prelude.{
  ℕ, ◌≡◌, ◌<◌, ◌≤◌, ◌^◌, refl, ap, ◌∙◌, inl, inr, true, false, not, ◌||◌, some, Option-cases, List,
  [], ◌∷◌, ◌++◌, Bytes, codes, has_prefix, has_prefix-append, drop-length, length, ltb, ◌==◌, ok,
  ◌>>=◌, guard, from_option, arith,
}
use go_devp2p.Rlp.{Rlp}
use go_devp2p.Enr.{Record, marshal_text}
use go_devp2p.Enr.Entries.{Ascending}
use go_devp2p.Enr.RoundTrip.{unmarshal_text-marshal_text}
use go_devp2p.Discv4.Peer.{decimal}
use go_devp2p.Dnsdisc.{
  Texts, comma, at_sign, split, join, check_and_trim_prefix, Root, Entry, root, branch, enr_entry,
  link, entry_string, bad_base32, bad_length, validate_hash, validate_hashes, parse_entry_root,
  parse_branch_root, parse_enr, two_parts, parse_entry_link, parse_entry,
}
use go_devp2p.Dnsdisc.Splits.{
  lacks, lacks-append, Lack, lack_nil, lack_cons, split-lacks, split-append, split-join,
}

abbrev pub percent : ℕ
percent = 37

abbrev pub root_text : Bytes → Bytes → ℕ → Bytes → Bytes
root_text eroot lroot seq sig =
    codes "enrtree-root:v1 e="
    ++ eroot
    ++ codes " l="
    ++ lroot
    ++ codes " seq="
    ++ decimal 19 seq
    ++ codes " sig="
    ++ sig

-- What entries.go relies on of the texts.
pub record TextLaws (t : Texts) : Type 0 where
  pub base64 : (b : Bytes) → t.base64_decode (t.base64_encode b) ≡ some b
  pub base32 : (b : Bytes) → t.base32_decode (t.base32_encode b) ≡ some b
  -- what is decoded, and what is encoded, has letters and digits only
  pub decoded_chars :
      (c : ℕ) (s b : Bytes) → 31 < c → c < 48 → t.base32_decode s ≡ some b → lacks c s ≡ true
  pub encoded_chars : (b : Bytes) → lacks at_sign (t.base32_encode b) ≡ true
  pub sprintf : (s : Bytes) → lacks percent s ≡ true → t.sprintf s ≡ s

module _ (r : Rlp) (t : Texts) where
  pub data Hashes : List Bytes → Type 0 where
    hash_nil : Hashes []
    hash_cons :
        {s : Bytes} {ss : List Bytes} → validate_hash r t s ≡ ok tt → Hashes ss → Hashes (s ∷ ss)

  -- the entries that can be written and read
  pub data IsPrintable : Entry r t → Type 0 where
    root_ok :
        (e : Root r t)
        → validate_hash r t e.eroot ≡ ok tt
        → validate_hash r t e.lroot ≡ ok tt
        → t.scan_root (root_text e.eroot e.lroot e.seq e.sig)
          ≡ some (e.eroot, e.lroot, e.seq, e.sig)
        → IsPrintable (root e)
    branch_ok : (s : Bytes) (ss : List Bytes) → Hashes (s ∷ ss) → IsPrintable (branch (s ∷ ss))
    enr_ok :
        (rec : Record r) → rec.seq < 2 ^ 64 → Ascending r rec.entries → IsPrintable (enr_entry rec)
    link_ok :
        (key domain : Bytes)
        → t.parse_compressed_pub_key (t.compress_pub_key key) ≡ some key
        → lacks at_sign domain ≡ true
        → IsPrintable (link key domain)

check_and_trim_prefix-append :
    (prefix s : Bytes) → check_and_trim_prefix (prefix ++ s) prefix ≡ ok s
unfolding check_and_trim_prefix
check_and_trim_prefix-append prefix s =
    rw (check_and_trim_prefix, has_prefix-append prefix s, drop-length prefix s) refl

module _ (r : Rlp) (t : Texts) (laws : TextLaws t) where
  -- a text that is the hash of an entry
  hash_decode :
      (s : Bytes)
      → validate_hash r t s ≡ ok tt
      → (b : Bytes) × (t.base32_decode s ≡ some b) × (12 ≤ length b)
  unfolding validate_hash
  hash_decode s h =
      let decoded : (do
        buf ← from_option bad_base32 (t.base32_decode s)
        guard (not (ltb (length buf) 12 || ltb 32 (length buf))) bad_length)
          ≡ ok tt =
        h in
      elim (Option-cases (t.base32_decode s)) [
        | inl e ↦ absurd (cc (rw e at decoded))
        | inr (b, e) ↦ (b, e, ground (arith, rw e at decoded))
      ]

  hash_lacks :
      (c : ℕ) (s : Bytes) → 31 < c → c < 48 → validate_hash r t s ≡ ok tt → lacks c s ≡ true
  hash_lacks c s l m h = let (b, e, _) = hash_decode s h in laws.decoded_chars c s b l m e

  Hashes-Lack : (c : ℕ) (ss : List Bytes) → 31 < c → c < 48 → Hashes r t ss → Lack c ss
  Hashes-Lack c [] l m hash_nil = lack_nil
  Hashes-Lack c (s ∷ ss) l m (hash_cons h hs) =
      lack_cons (hash_lacks c s l m h) (Hashes-Lack c ss l m hs)

  lacks-join :
      (c d : ℕ) (ss : List Bytes) → (d == c) ≡ false → Lack c ss → lacks c (join d ss) ≡ true
  unfolding join lacks
  lacks-join c d [] n lack_nil = refl
  lacks-join c d (s ∷ []) n (lack_cons h lack_nil) = h
  lacks-join c d (s ∷ s' ∷ ss) n (lack_cons h hs) =
      lacks-append c s (d ∷ join d (s' ∷ ss)) h (ground (arith, lacks-join c d (s' ∷ ss) n hs))

  validate_hashes-Hashes : (ss : List Bytes) → Hashes r t ss → validate_hashes r t ss ≡ ok ss
  unfolding validate_hashes
  validate_hashes-Hashes [] hash_nil = refl
  validate_hashes-Hashes (s ∷ ss) (hash_cons h hs) =
      rw (validate_hashes, h, validate_hashes-Hashes ss hs) refl

  printed_branch :
      (ss : List Bytes)
      → Hashes r t ss
      → entry_string r t (branch ss) ≡ codes "enrtree-branch:" ++ join comma ss
  unfolding entry_string lacks
  printed_branch ss hs = laws.sprintf (codes "enrtree-branch:" ++ join comma ss) (
      lacks-append percent (codes "enrtree-branch:") (join comma ss) refl
        (lacks-join percent comma ss refl (Hashes-Lack percent ss (omega arith) (omega arith) hs)))

  parse_branch :
      (s : Bytes) (ss : List Bytes)
      → Hashes r t (s ∷ ss)
      → parse_branch_root r t (codes "enrtree-branch:" ++ join comma (s ∷ ss))
        ≡ ok (branch (s ∷ ss))
  unfolding parse_branch_root
  parse_branch s ss hs =
      rw
        (
          parse_branch_root,
          check_and_trim_prefix-append (codes "enrtree-branch:") (join comma (s ∷ ss)),
          split-join comma s ss (Hashes-Lack comma (s ∷ ss) (omega arith) (omega arith) hs),
          validate_hashes-Hashes (s ∷ ss) hs,
        )
        refl

  parse_link :
      (key domain : Bytes)
      → t.parse_compressed_pub_key (t.compress_pub_key key) ≡ some key
      → lacks at_sign domain ≡ true
      → parse_entry_link r t (entry_string r t (link key domain)) ≡ ok (link key domain)
  unfolding parse_entry_link entry_string two_parts
  parse_link key domain k d =
      let text = t.base32_encode (t.compress_pub_key key) in
      let trimmed : check_and_trim_prefix (codes "enrtree://" ++ text ++ at_sign ∷ domain)
            (codes "enrtree://")
          ≡ ok (text ++ at_sign ∷ domain) =
        check_and_trim_prefix-append (codes "enrtree://") (text ++ at_sign ∷ domain) in
      let parts : split at_sign (text ++ at_sign ∷ domain) ≡ text ∷ domain ∷ [] =
        split-append at_sign text domain (laws.encoded_chars (t.compress_pub_key key))
        ∙ ap (λ ps. text ∷ ps) (split-lacks at_sign domain d) in
      rw (parse_entry_link, trimmed, parts, two_parts, laws.base32 (t.compress_pub_key key), k) refl

  parse_root :
      (e : Root r t)
      → validate_hash r t e.eroot ≡ ok tt
      → validate_hash r t e.lroot ≡ ok tt
      → t.scan_root (root_text e.eroot e.lroot e.seq e.sig) ≡ some (e.eroot, e.lroot, e.seq, e.sig)
      → parse_entry_root r t (entry_string r t (root e)) ≡ ok (root e)
  unfolding parse_entry_root entry_string has_prefix
  parse_root e he hl s = rw (parse_entry_root, s, he, hl) refl

  parse_record :
      (rec : Record r)
      → rec.seq < 2 ^ 64
      → Ascending r rec.entries
      → parse_enr r t (entry_string r t (enr_entry rec)) ≡ ok (enr_entry rec)
  unfolding parse_enr entry_string
  parse_record rec h asc =
      rw
        (
          parse_enr,
          unmarshal_text-marshal_text r t.base64_encode t.base64_decode laws.base64 rec h asc,
        )
        refl

  -- Where base64 and base32 decode what they encode, base32 is of letters and digits, and Sprintf
  -- keeps a format without percent signs, parseEntry gives back an entry from its String: a branch
  -- of one or more valid hashes, a record with strictly ascending keys and a sequence number of 64
  -- bits, a link with a key that compression keeps and a domain without at signs, and a root with
  -- valid hashes that the scanner reads back.
  pub parse_entry-entry_string :
      (e : Entry r t) → IsPrintable r t e → parse_entry r t (entry_string r t e) ≡ ok e
  unfolding parse_entry has_prefix entry_string marshal_text
  parse_entry-entry_string (root _) (root_ok e he hl s) = parse_root e he hl s
  parse_entry-entry_string (branch _) (branch_ok s ss hs) =
      ap (parse_entry r t) (printed_branch (s ∷ ss) hs) ∙ parse_branch s ss hs
  parse_entry-entry_string (enr_entry _) (enr_ok rec h asc) = parse_record rec h asc
  parse_entry-entry_string (link _ _) (link_ok key domain k d) = parse_link key domain k d
