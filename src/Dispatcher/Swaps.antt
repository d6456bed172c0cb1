-- ===== src/Dispatcher/Swaps.antt =====
-- The heap of periodic.go under swaps: the items are the same, at other places.
use mathlib.Core.Path.{subst}
use go_devp2p.Prelude.{
  ℕ, ◌<◌, ◌≤◌, ◌≡◌, refl, ap, sym, ◌∙◌, inl, inr, true, false, some, some_inj, List, Bytes, length,
  length-set, get_elem?, get_elem?-set, get_elem?-some, get_elem?-lt, set, ==_refl, ==_iff,
  Bool-cases, if◌then◌else◌, ok, ok_inj, arith, ◌==◌,
}
use go_devp2p.Dispatcher.{PJob, Time, Item, swap}

-- What an item holds but for its place.
abbrev pub Content : Type 0
Content = Bytes × PJob × Time

abbrev pub content : Item → Content
content x = (x.id, x.value, x.next)

-- Every item knows its place.
abbrev pub IsIndexed : List Item → Type 0
IsIndexed h = (k : ℕ) (x : Item) → get_elem? h k ≡ some x → x.index ≡ k

-- The items of `h'` are those of `h`, moved by a map of the places that confuses none and leaves
-- those from `n` on.
pub record Swapped (n : ℕ) (h h' : List Item) : Type 0 where
  pub from : ℕ → ℕ
  pub from_inj : (k m : ℕ) → from k ≡ from m → k ≡ m
  pub outside : (k : ℕ) → n ≤ k → from k ≡ k
  pub same_length : length h' ≡ length h
  pub kept :
      (k : ℕ) (x : Item)
      → get_elem? h' k ≡ some x
      → (y : Item) × (get_elem? h (from k) ≡ some y) × (content x ≡ content y)
  pub found :
      (m : ℕ) (y : Item)
      → get_elem? h m ≡ some y
      → (k : ℕ) × (x : Item) × (from k ≡ m) × (get_elem? h' k ≡ some x) × (content x ≡ content y)
  pub indexed : IsIndexed h → IsIndexed h'

pub Swapped-refl : (n : ℕ) (h : List Item) → Swapped n h h
Swapped-refl n h = record {
  from = λ k. k;
  from_inj = λ k m e. e;
  outside = λ k l. refl;
  same_length = refl;
  kept = λ k x e. (x, e, refl);
  found = λ m y e. (m, y, refl, e, refl);
  indexed = λ i. i;
}

pub Swapped-trans :
    (n : ℕ) {h h' h'' : List Item} → Swapped n h h' → Swapped n h' h'' → Swapped n h h''
Swapped-trans n p q = record {
  from = λ k. p.from (q.from k);
  from_inj = λ k m e. q.from_inj k m (p.from_inj (q.from k) (q.from m) e);
  outside = λ k l. ap p.from (q.outside k l) ∙ p.outside k l;
  same_length = q.same_length ∙ p.same_length;
  kept = λ k x e.
      let (y, f, c) = q.kept k x e in let (z, g, d) = p.kept (q.from k) y f in (z, g, c ∙ d);
  found = λ m y e.
      let (k, x, s, f, c) = p.found m y e in
      let (j, z, t, g, d) = q.found k x f in (j, z, ap p.from t ∙ s, g, d ∙ c);
  indexed = λ i. q.indexed (p.indexed i);
}

module _ (h : List Item) (i j : ℕ) (a b : Item) (at_i : get_elem? h i ≡ some a)
    (at_j : get_elem? h j ≡ some b) where
  abbrev swapped : List Item
  swapped = set (set h i (record b { index = i })) j (record a { index = j })

  swap_lem : swap i j h ≡ ok swapped
  unfolding swap
  swap_lem = rw (swap, at_i, at_j) refl

  -- where the item at a place was before
  abbrev other : ℕ → ℕ
  other k = if k == j then i else if k == i then j else k

  get_elem?-swapped :
      (k : ℕ)
      → get_elem? swapped k ≡ (
          if k == j
          then some (record a { index = j })
          else if k == i
          then some (record b { index = i })
          else get_elem? h k)
  get_elem?-swapped k =
      let b' : Item = record b { index = i } in
      let a' : Item = record a { index = j } in
      ground (
        arith,
        get_elem?-set (set h i b') j k a',
        get_elem?-set h i k b',
        length-set h i b',
        get_elem?-lt h i at_i,
        get_elem?-lt h j at_j,
      )

  other_inj : (k m : ℕ) → other k ≡ other m → k ≡ m
  other_inj k m e = ground arith

  abbrev a' : Item
  a' = record a { index = j }

  abbrev b' : Item
  b' = record b { index = i }

  -- the three kinds of places
  swapped_j : (k : ℕ) → (k == j) ≡ true → get_elem? swapped k ≡ some a'
  swapped_j k p = get_elem?-swapped k ∙ rw p refl

  swapped-i : (k : ℕ) → (k == j) ≡ false → (k == i) ≡ true → get_elem? swapped k ≡ some b'
  swapped-i k p q = get_elem?-swapped k ∙ rw (p, q) refl

  swapped_else : (k : ℕ) → (k == j) ≡ false → (k == i) ≡ false → get_elem? swapped k ≡ get_elem? h k
  swapped_else k p q = get_elem?-swapped k ∙ rw (p, q) refl

  kept_swapped :
      (k : ℕ) (x : Item)
      → get_elem? swapped k ≡ some x
      → (y : Item) × (get_elem? h (other k) ≡ some y) × (content x ≡ content y)
  kept_swapped k x e = elim (Bool-cases (k == j)) [
    | inl p ↦ rw p (a, at_i, ap content (some_inj (sym e ∙ swapped_j k p)))
    | inr p ↦ elim (Bool-cases (k == i)) [
      | inl q ↦ rw (p, q) (b, at_j, ap content (some_inj (sym e ∙ swapped-i k p q)))
      | inr q ↦ rw (p, q) (x, sym (swapped_else k p q) ∙ e, refl)
    ]
  ]

  found_swapped :
      (m : ℕ) (y : Item)
      → get_elem? h m ≡ some y
      → (k : ℕ) × (x : Item) × (other k ≡ m)
        × (get_elem? swapped k ≡ some x)
        × (content x ≡ content y)
  found_swapped m y e = elim (Bool-cases (m == i)) [
    | inl p ↦
        let here = (==_iff m i).0 p in
        let same : a ≡ y = some_inj (sym at_i ∙ ap (get_elem? h) (sym here) ∙ e) in
        (j, a', ground arith, swapped_j j (==_refl j), ap content same)
    | inr p ↦ elim (Bool-cases (m == j)) [
      | inl q ↦
          let there = (==_iff m j).0 q in
          let same : b ≡ y = some_inj (sym at_j ∙ ap (get_elem? h) (sym there) ∙ e) in
          (i, b', ground arith, swapped-i i (ground arith) (==_refl i), ap content same)
      | inr q ↦ (m, y, ground arith, swapped_else m q p ∙ e, refl)
    ]
  ]

  IsIndexed-swapped : IsIndexed h → IsIndexed swapped
  IsIndexed-swapped f k x e = elim (Bool-cases (k == j)) [
    | inl p ↦ ap (λ (y : Item). y.index) (some_inj (sym e ∙ swapped_j k p)) ∙ sym ((==_iff k j).0 p)
    | inr p ↦ elim (Bool-cases (k == i)) [
      | inl q ↦
          ap (λ (y : Item). y.index) (some_inj (sym e ∙ swapped-i k p q)) ∙ sym ((==_iff k i).0 q)
      | inr q ↦ f k x (sym (swapped_else k p q) ∙ e)
    ]
  ]

  swapped-Swapped : (n : ℕ) → i < n → j < n → Swapped n h swapped
  swapped-Swapped n li lj = record {
    from = other;
    from_inj = other_inj;
    outside = λ k l. ground arith;
    same_length = length-set (set h i b') j a' ∙ length-set h i b';
    kept = kept_swapped;
    found = found_swapped;
    indexed = IsIndexed-swapped;
  }

-- Swap of two places of the heap.
pub swap-Swapped :
    (n i j : ℕ) (h : List Item)
    → n ≤ length h
    → i < n
    → j < n
    → (h' : List Item) × (swap i j h ≡ ok h') × Swapped n h h'
swap-Swapped n i j h ln li lj =
    let (a, at_i) = get_elem?-some h i (omega arith) in
    let (b, at_j) = get_elem?-some h j (omega arith) in
    (
      swapped h i j a b at_i at_j,
      swap_lem h i j a b at_i at_j,
      swapped-Swapped h i j a b at_i at_j n li lj,
    )

-- What Swap puts at the second place.
pub swap-at :
    (i j : ℕ) (h h' : List Item) (a : Item)
    → j < length h
    → get_elem? h i ≡ some a
    → swap i j h ≡ ok h'
    → get_elem? h' j ≡ some (record a { index = j })
swap-at i j h h' a lj at_i e =
    let (b, at_j) = get_elem?-some h j lj in
    let same = ok_inj (sym (swap_lem h i j a b at_i at_j) ∙ e) in
    subst (λ l. get_elem? l j ≡ some (record a { index = j })) same
      (swapped_j h i j a b at_i at_j j (==_refl j))
