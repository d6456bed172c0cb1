-- ===== src/Dispatcher/Heap.antt =====
-- heap.Push, heap.Fix and heap.Remove, as periodic.go calls them, on the schedule of the items.
use mathlib.Core.Path.{subst}
use go_devp2p.Prelude.{
  ℕ, zero, suc, ◌+◌, ◌-◌, ◌<◌, ◌≡◌, refl, ap, sym, ◌∙◌, inl, inr, false, none, some, some_inj, List,
  [], ◌∷◌, ◌++◌, bytes_eq, bytes_eq_iff, length, length-append, length-set, take, get_elem?,
  get_elem?-set, get_elem?-append_one, get_elem?-some, get_elem?-lt, set, ==_iff, Bool-cases,
  if◌then◌else◌, ok, arith, ◌==◌,
}
use go_devp2p.Dispatcher.{Time, Item, fix, heap_push, heap_remove}
use go_devp2p.Dispatcher.Swaps.{Content, swap-Swapped, swap-at}
use go_devp2p.Dispatcher.Loops.{up-Swapped, sift-Swapped}
use go_devp2p.Dispatcher.Items.{Schedule, put, ItemsOf, ItemsOf-Swapped, written-ItemsOf}

pub heap_push-ItemsOf :
    (h : List Item) (f : Schedule) (x : Item)
    → f x.id ≡ none
    → ItemsOf h f
    → (h' : List Item) × (heap_push x h ≡ ok h') × ItemsOf h' (put f x.id (some (x.value, x.next)))
unfolding heap_push
heap_push-ItemsOf h f x new i =
    let z : Item = record x { index = length h } in
    let grown = h ++ z ∷ [] in
    let size : length grown ≡ length h + 1 = length-append h (z ∷ []) in
    let (h', u, s) =
      up-Swapped (length h + 1) (length h + 1) (length h) grown (omega arith) (omega arith)
        (omega (arith, size)) in
    let is : ItemsOf grown (put f x.id (some (x.value, x.next))) =
      written-ItemsOf h grown f (length h) z i (get_elem?-append_one h z) refl
        (λ k y at same. absurd (cc (new, i.sound k y at, ap f same)))
        (λ y at. absurd (omega (arith, get_elem?-lt h (length h) at))) in
    (h', u, ItemsOf-Swapped (length h + 1) (put f x.id (some (x.value, x.next))) s is)

pub fix-ItemsOf :
    (h : List Item) (f : Schedule) (x : Item) (k : ℕ) (next : Time)
    → get_elem? h k ≡ some x
    → ItemsOf h f
    → (h' : List Item) × (fix k (set h k (record x { next = next })) ≡ ok h')
      × ItemsOf h' (put f x.id (some (x.value, next)))
unfolding fix
fix-ItemsOf h f x k next at i =
    let z : Item = record x { next = next } in
    let changed = set h k z in
    let size = length-set h k z in
    let lk = get_elem?-lt h k at in
    let look : (m : ℕ) → get_elem? changed m ≡ (if m == k then some z else get_elem? h m) =
      λ m. ground (arith, get_elem?-set h k m z, lk) in
    let is : ItemsOf changed (put f x.id (some (x.value, next))) =
      written-ItemsOf h changed f k z i look (i.indexed k x at)
        (λ m y b same. i.distinct m k y x b at same)
        (λ y b. ap (λ (w : Item). w.id) (some_inj (sym b ∙ at))) in
    let (h', u, s) =
      sift-Swapped k (length changed) changed (omega (arith, size, lk)) (omega arith) in
    (h', u, ItemsOf-Swapped (length changed) (put f x.id (some (x.value, next))) s is)

get_elem?-take :
    (n : ℕ) (h : List Item) (k : ℕ) (x : Item)
    → get_elem? (take n h) k ≡ some x
    → (k < n) × (get_elem? h k ≡ some x)
get_elem?-take zero h k x e = cc
get_elem?-take (suc n) [] k x e = cc
get_elem?-take (suc n) (y ∷ h) zero x e = (omega arith, e)
get_elem?-take (suc n) (y ∷ h) (suc k) x e =
    let (l, at) = get_elem?-take n h k x e in (omega (arith, l), at)

take-get_elem? :
    (n : ℕ) (h : List Item) (k : ℕ) (x : Item)
    → k < n
    → get_elem? h k ≡ some x
    → get_elem? (take n h) k ≡ some x
take-get_elem? zero h k x l e = absurd (omega arith)
take-get_elem? (suc n) [] k x l e = cc
take-get_elem? (suc n) (y ∷ h) zero x l e = e
take-get_elem? (suc n) (y ∷ h) (suc k) x l e = take-get_elem? n h k x (omega arith) e

-- The last item is taken off.
take-ItemsOf :
    (h : List Item) (f : Schedule) (n : ℕ) (y : Item)
    → length h ≡ suc n
    → get_elem? h n ≡ some y
    → ItemsOf h f
    → ItemsOf (take n h) (put f y.id none)
take-ItemsOf h f n y size last i =
    let down_to = get_elem?-take n h in
    let apart : (k : ℕ) (x : Item) → k < n → get_elem? h k ≡ some x → bytes_eq y.id x.id ≡ false =
      λ k x l at. elim (Bool-cases (bytes_eq y.id x.id)) [
        | inr s ↦ s
        | inl s ↦
            let same = i.distinct k n x y at last (sym ((bytes_eq_iff y.id x.id).0 s)) in
            absurd (omega (arith, same, l))
      ] in
    record {
      indexed = λ k x at. i.indexed k x (down_to k x at).1;
      distinct = λ k m x z a b same. i.distinct k m x z (down_to k x a).1 (down_to m z b).1 same;
      sound = λ k x at. let (l, at') = down_to k x at in rw (apart k x l at') (i.sound k x at');
      complete = λ id p t e. elim (Bool-cases (bytes_eq y.id id)) [
        | inl s ↦ absurd (cc (e, s))
        | inr s ↦
            let (k, x, at, c) = i.complete id p t (sym (rw s refl) ∙ e) in
            elim (Bool-cases (k == n)) [
              | inl g ↦
                  let same = some_inj (sym at ∙ ap (get_elem? h) ((==_iff k n).0 g) ∙ last) in
                  let q = ap (λ (w : Item). w.id) (sym same) ∙ ap (λ (w : Content). w.0) c in
                  absurd (cc (s, (bytes_eq_iff y.id id).1 q))
              | inr g ↦
                  (k, x, take-get_elem? n h k x (ground (arith, get_elem?-lt h k at, size)) at, c)
            ]
      ];
    }

pub heap_remove-ItemsOf :
    (h : List Item) (f : Schedule) (x : Item) (k : ℕ)
    → get_elem? h k ≡ some x
    → ItemsOf h f
    → (h' : List Item) × (heap_remove k h ≡ ok h') × ItemsOf h' (put f x.id none)
unfolding heap_remove
heap_remove-ItemsOf h f x k at i =
    let n = length h - 1 in
    let lk = get_elem?-lt h k at in
    let size : length h ≡ suc n = omega (arith, lk) in
    elim (Bool-cases (n == k)) [
      | inl e ↦
          let last : get_elem? h n ≡ some x = ap (get_elem? h) ((==_iff n k).0 e) ∙ at in
          (take n h, rw (heap_remove, e) refl, take-ItemsOf h f n x size last i)
      | inr e ↦
          let inner : k < n = ground (arith, lk) in
          let (g, w, s) = swap-Swapped (length h) k n h (omega arith) lk (omega (arith, size)) in
          let (h', u, t) = sift-Swapped k n g inner (omega (arith, s.same_length, size)) in
          let last_g = swap-at k n h g x (omega (arith, size)) at w in
          let (y, last) = get_elem?-some h' n (omega (arith, t.same_length, s.same_length, size)) in
          let (z, from, c) = t.kept n y last in
          let stays = ap (get_elem? g) (sym (t.outside n (omega arith))) ∙ from in
          let same : y.id ≡ x.id =
            ap (λ (v : Content). v.0) c ∙ ap (λ (v : Item). v.id) (some_inj (sym stays ∙ last_g)) in
          let is = ItemsOf-Swapped n f t (ItemsOf-Swapped (length h) f s i) in
          (
            take n h',
            rw (heap_remove, e, w, u) refl,
            subst (λ id. ItemsOf (take n h') (put f id none)) same
                (take-ItemsOf h' f n y (omega (arith, t.same_length, s.same_length, size)) last is),
          )
    ]
