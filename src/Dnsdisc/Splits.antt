-- ===== src/Dnsdisc/Splits.antt =====
-- strings.Split and strings.Join, as dnsdisc/entries.go calls them.
use go_devp2p.Prelude.{
  ℕ, ◌≡◌, refl, ap, ◌∙◌, Bool, true, false, not, ◌&&◌, List, [], ◌∷◌, ◌++◌, Bytes, ◌==◌, arith,
  ==_refl,
}
use go_devp2p.Dnsdisc.{split, join}

-- whether a byte does not stand in a text
unfoldable pub lacks : ℕ → Bytes → Bool
lacks c [] = true
lacks c (x ∷ xs) = not (x == c) && lacks c xs

pub lacks-append :
    (c : ℕ) (xs ys : Bytes) → lacks c xs ≡ true → lacks c ys ≡ true → lacks c (xs ++ ys) ≡ true
unfolding lacks
lacks-append c [] ys h k = k
lacks-append c (x ∷ xs) ys h k = ground (arith, lacks-append c xs ys)

-- the first byte, and the others
lacks_cons :
    (c x : ℕ) (xs : Bytes) → lacks c (x ∷ xs) ≡ true → ((x == c) ≡ false) × (lacks c xs ≡ true)
unfolding lacks
lacks_cons c x xs h = (ground arith, ground arith)

-- every part lacks the separator
pub data Lack (c : ℕ) : List Bytes → Type 0 where
  lack_nil : Lack c []
  lack_cons :
      {part : Bytes} {parts : List Bytes}
      → lacks c part ≡ true
      → Lack c parts
      → Lack c (part ∷ parts)

pub split-lacks : (c : ℕ) (part : Bytes) → lacks c part ≡ true → split c part ≡ part ∷ []
unfolding split
split-lacks c [] h = refl
split-lacks c (x ∷ xs) h =
    let (apart, others) = lacks_cons c x xs h in rw (split, apart, split-lacks c xs others) refl

pub split-append :
    (c : ℕ) (part rest : Bytes)
    → lacks c part ≡ true
    → split c (part ++ c ∷ rest) ≡ part ∷ split c rest
unfolding split
split-append c [] rest h = rw (split, ==_refl c) refl
split-append c (x ∷ xs) rest h =
    let (apart, others) = lacks_cons c x xs h in
    rw (split, apart, split-append c xs rest others) refl

pub split-join :
    (c : ℕ) (part : Bytes) (parts : List Bytes)
    → Lack c (part ∷ parts)
    → split c (join c (part ∷ parts)) ≡ part ∷ parts
unfolding join
split-join c part [] (lack_cons h hs) = split-lacks c part h
split-join c part (next ∷ parts) (lack_cons h hs) =
    split-append c part (join c (next ∷ parts)) h
    ∙ ap (λ ps. part ∷ ps) (split-join c next parts hs)
