-- ===== src/Rlp/Tree.antt =====
-- A model of the RLP library in which its laws hold: values are trees, and their bytes are a prefix
-- code. The laws, and not this code, are what the codecs are proved from.
use go_devp2p.Prelude.{
  ℕ, zero, suc, ◌≤◌, ◌<◌, ◌≡◌, refl, ap, sym, ◌∙◌, Bool, true, false, Option, none, some, List, [],
  ◌∷◌, ◌++◌, append_assoc, append-nil, Bytes, length, length-append, take, drop, take-length,
  drop-length, be64, ◌==◌, if◌then◌else◌, arith,
}
use go_devp2p.Rlp.{Rlp}

pub data Tree : Type 0 where
  num : ℕ → Tree
  str : Bytes → Tree
  flag : Bool → Tree
  nil : Tree
  cons : Tree → Tree → Tree

abbrev pub tree_array : List Tree → Tree
tree_array [] = nil
tree_array (t ∷ ts) = cons t (tree_array ts)

abbrev pub tree_elems : Tree → Option (List Tree)
tree_elems nil = some []
tree_elems (cons t ts) = elim (tree_elems ts) [ none ↦ none | some vs ↦ some (t ∷ vs) ]
tree_elems _ = none

abbrev pub tree_uint64 : Tree → Option ℕ
tree_uint64 (num n) = some n
tree_uint64 _ = none

abbrev pub tree_bytes : Tree → Option Bytes
tree_bytes (str b) = some b
tree_bytes (num n) = some (be64 n)
tree_bytes _ = none

abbrev pub tree_bytes_of : ℕ → Tree → Option Bytes
tree_bytes_of n t = elim (tree_bytes t) [
  | none ↦ none
  | some b ↦ if length b == n then some b else none
]

abbrev pub tree_bool : Tree → Option Bool
tree_bool (flag b) = some b
tree_bool _ = none

unfoldable pub write : Tree → List ℕ
write (num n) = 0 ∷ n ∷ []
write (str b) = 1 ∷ length b ∷ b
write (flag false) = 2 ∷ []
write (flag true) = 3 ∷ []
write nil = 4 ∷ []
write (cons t ts) = 5 ∷ (write t ++ write ts)

abbrev Parsed : Type 0
Parsed = Option (Tree × List ℕ)

after_tag : ℕ → List ℕ → Parsed → Parsed
after_tag zero (n ∷ bs) pair = some (num n, bs)
after_tag (suc zero) (n ∷ bs) pair = some (str (take n bs), drop n bs)
after_tag (suc (suc zero)) bs pair = some (flag false, bs)
after_tag (suc (suc (suc zero))) bs pair = some (flag true, bs)
after_tag (suc (suc (suc (suc zero)))) bs pair = some (nil, bs)
after_tag (suc (suc (suc (suc (suc k))))) bs pair = pair
after_tag _ bs pair = none

read_cons : Tree → Parsed → Parsed
read_cons t none = none
read_cons t (some (ts, rest)) = some (cons t ts, rest)

read_pair : (List ℕ → Parsed) → Parsed → Parsed
read_pair again none = none
read_pair again (some (t, rest)) = read_cons t (again rest)

unfoldable pub read : ℕ → List ℕ → Parsed
unfolding after_tag read_cons read_pair
read zero bs = none
read (suc fuel) [] = none
read (suc fuel) (tag ∷ bs) =
    let pair = read_pair (read fuel) (read fuel bs) in after_tag tag bs pair

tree_read-write :
    (fuel : ℕ) (t : Tree) (rest : List ℕ)
    → length (write t) ≤ fuel
    → read fuel (write t ++ rest) ≡ some (t, rest)
unfolding read write
tree_read-write zero (num n) rest h = absurd (omega arith)
tree_read-write zero (str b) rest h = absurd (omega arith)
tree_read-write zero (flag false) rest h = absurd (omega arith)
tree_read-write zero (flag true) rest h = absurd (omega arith)
tree_read-write zero nil rest h = absurd (omega arith)
tree_read-write zero (cons t ts) rest h = absurd (omega arith)
tree_read-write (suc fuel) (num n) rest h = refl
tree_read-write (suc fuel) (str b) rest h = rw (take-length b rest, drop-length b rest)
tree_read-write (suc fuel) (flag false) rest h = refl
tree_read-write (suc fuel) (flag true) rest h = refl
tree_read-write (suc fuel) nil rest h = refl
tree_read-write (suc fuel) (cons t ts) rest h =
    let l : length (write t ++ write ts) ≤ fuel = omega arith in
    let m = length-append (write t) (write ts) in
    rw (
      append_assoc (write t) (write ts) rest,
      tree_read-write fuel t (write ts ++ rest) (omega arith),
      tree_read-write fuel ts rest (omega arith),
    )

abbrev pub tree_parse : Bytes → Option Tree
tree_parse bs = elim (read (length bs) bs) [ none ↦ none | some (t, rest) ↦ some t ]

-- What stands behind a tree is not read.
pub tree_parse-padded : (t : Tree) (rest : Bytes) → tree_parse (write t ++ rest) ≡ some t
tree_parse-padded t rest =
    let e : read (length (write t ++ rest)) (write t ++ rest) ≡ some (t, rest) =
      tree_read-write (length (write t ++ rest)) t rest
        (omega (arith, length-append (write t) rest)) in
    rw (e, tree_parse)

pub tree_parse-write : (t : Tree) → tree_parse (write t) ≡ some t
tree_parse-write t =
    let e : read (length (write t)) (write t) ≡ some (t, []) =
      ap (λ l. read (length (write t)) l) (sym (append-nil (write t)))
      ∙ tree_read-write (length (write t)) t [] (omega arith) in
    rw (e, tree_parse)

pub tree_elems-array : (vs : List Tree) → tree_elems (tree_array vs) ≡ some vs
tree_elems-array [] = refl
tree_elems-array (v ∷ vs) = rw (tree_elems-array vs)

pub tree_uint_bytes : (n : ℕ) → (b : Bytes) × (tree_bytes (num n) ≡ some b) × (length b < 9)
unfolding be64
tree_uint_bytes n = (be64 n, refl, omega arith)

-- The laws hold of the trees.
abbrev pub tree_rlp : Rlp
tree_rlp = record {
  Value = Tree;
  new_array = tree_array;
  new_null_array = nil;
  new_uint = num;
  new_bytes = str;
  new_bool = flag;
  get_elems = tree_elems;
  get_uint64 = tree_uint64;
  get_bytes = tree_bytes;
  get_bytes_of = tree_bytes_of;
  get_bool = tree_bool;
  marshal = write;
  parse = tree_parse;
  new_big_int = num;
  get_big_int = tree_uint64;
  elems_of_array = tree_elems-array;
  elems_of_null_array = refl;
  uint64_of_uint = λ n h. refl;
  bytes_of_bytes = λ b. refl;
  bytes_of_uint = λ n h. tree_uint_bytes n;
  big_int_of_big_int = λ n. refl;
  bytes_of_length = λ n b. refl;
  bool_of_bool = λ b. refl;
  parse_of_marshal = tree_parse-write;
}
