-- ===== src/Tests/Dnsdisc.antt =====
-- The entries of dnsdisc/entries.go, with a base32 that adds 100 to each byte.
use go_devp2p.Prelude.{
  ℕ, ◌+◌, ◌-◌, ◌<◌, ◌≡◌, refl, inl, inr, true, Option, none, some, Option-cases, [], ◌∷◌, Bytes,
  replicate, ltb, if◌then◌else◌, ok, arith,
}
use go_devp2p.Rlp.Tree.{tree_rlp}
use go_devp2p.Dnsdisc.{Texts, Entry, branch, parse_entry, entry_string, validate_hash, at_sign}
use go_devp2p.Dnsdisc.Splits.{lacks}
use go_devp2p.Dnsdisc.RoundTrip.{TextLaws, branch_ok, hash_nil, hash_cons, parse_entry-entry_string}

abbrev lift : Bytes → Bytes
lift [] = []
lift (x ∷ xs) = (100 + x) ∷ lift xs

abbrev lower : Bytes → Option Bytes
lower [] = some []
lower (x ∷ xs) = elim (lower xs) [
  | none ↦ none
  | some rest ↦ if ltb x 100 then none else some ((x - 100) ∷ rest)
]

abbrev pub texts : Texts
texts = record {
  base64_encode = λ b. b;
  base64_decode = λ b. some b;
  base32_encode = lift;
  base32_decode = lower;
  compress_pub_key = λ k. k;
  parse_compressed_pub_key = λ k. some k;
  sprintf = λ s. s;
  scan_root = λ s. none;
}

lower-lift : (b : Bytes) → lower (lift b) ≡ some b
lower-lift [] = refl
lower-lift (x ∷ xs) = rw (lower-lift xs) (ground arith)

lower-lacks : (c : ℕ) (s b : Bytes) → 31 < c → c < 48 → lower s ≡ some b → lacks c s ≡ true
unfolding lacks
lower-lacks c [] b l m e = refl
lower-lacks c (x ∷ xs) b l m e = elim (Option-cases (lower xs)) [
  | inl n ↦ absurd (cc (rw n at e))
  | inr (rest, n) ↦ ground (arith, lower-lacks c xs rest l m n, rw n at e)
]

lacks-lift : (b : Bytes) → lacks at_sign (lift b) ≡ true
unfolding lacks
lacks-lift [] = refl
lacks-lift (x ∷ xs) = ground (arith, lacks-lift xs)

pub texts-Laws : TextLaws texts
texts-Laws = record {
  base64 = λ b. refl;
  base32 = lower-lift;
  decoded_chars = lower-lacks;
  encoded_chars = lacks-lift;
  sprintf = λ s l. refl;
}

abbrev pub hash : Bytes
hash = replicate 12 110

pub hash_valid : validate_hash tree_rlp texts hash ≡ ok tt
unfolding validate_hash
hash_valid = refl

abbrev two_hashes : Entry tree_rlp texts
two_hashes = branch (hash ∷ hash ∷ [])

-- The theorem at a concrete input.
parse_entry-entry_string_example :
    parse_entry tree_rlp texts (entry_string tree_rlp texts two_hashes) ≡ ok two_hashes
parse_entry-entry_string_example =
    parse_entry-entry_string tree_rlp texts texts-Laws two_hashes
      (branch_ok hash (hash ∷ []) (hash_cons hash_valid (hash_cons hash_valid hash_nil)))
