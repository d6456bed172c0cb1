-- ===== src/Dispatcher/Items.antt =====
-- The items of the heap of periodic.go as a schedule: a function from identifiers to jobs and times.
use mathlib.Core.Path.{subst, ap₂}
use go_devp2p.Prelude.{
  ℕ, ◌≡◌, refl, ap, sym, ◌∙◌, inl, inr, true, false, Option, some, some_inj, List, Bytes, bytes_eq,
  bytes_eq_iff, bytes_eq_refl, get_elem?, ==_iff, ==_refl, Bool-cases, if◌then◌else◌, arith, ◌==◌,
}
use go_devp2p.Dispatcher.{PJob, Time, Item}
use go_devp2p.Dispatcher.Swaps.{Content, content, IsIndexed, Swapped}

abbrev pub Schedule : Type 0
Schedule = Bytes → Option (PJob × Time)

abbrev pub put : Schedule → Bytes → Option (PJob × Time) → Schedule
put f id v = λ other. if bytes_eq id other then v else f other

-- The items are those of the schedule, each once, and know their places.
pub record ItemsOf (h : List Item) (f : Schedule) : Type 0 where
  pub indexed : IsIndexed h
  pub distinct :
      (k m : ℕ) (x y : Item) → get_elem? h k ≡ some x → get_elem? h m ≡ some y → x.id ≡ y.id → k ≡ m
  pub sound : (k : ℕ) (x : Item) → get_elem? h k ≡ some x → f x.id ≡ some (x.value, x.next)
  pub complete :
      (id : Bytes) (p : PJob) (t : Time)
      → f id ≡ some (p, t)
      → (k : ℕ) × (x : Item) × (get_elem? h k ≡ some x) × (content x ≡ (id, p, t))

pub ItemsOf-Swapped :
    (n : ℕ) {h h' : List Item} (f : Schedule) → Swapped n h h' → ItemsOf h f → ItemsOf h' f
ItemsOf-Swapped n f s i = record {
  indexed = s.indexed i.indexed;
  distinct = λ k m x y a b e.
      let (x', a', c) = s.kept k x a in
      let (y', b', d) = s.kept m y b in
      s.from_inj k m (
        i.distinct (s.from k) (s.from m) x' y' a' b'
          (sym (ap (λ (z : Content). z.0) c) ∙ e ∙ ap (λ (z : Content). z.0) d));
  sound = λ k x a.
      let (x', a', c) = s.kept k x a in
      ap (λ (z : Content). f z.0) c
      ∙ i.sound (s.from k) x' a'
      ∙ ap (λ (z : Content). some (z.1, z.2)) (sym c);
  complete = λ id p t e.
      let (m, y, at, c) = i.complete id p t e in
      let (k, x, _, at', d) = s.found m y at in (k, x, at', d ∙ c);
}

-- A list that differs from `h` in one place, where it has `z`.
module _ (h h' : List Item) (f : Schedule) (i : ℕ) (z : Item) (old : ItemsOf h f)
    (look : (k : ℕ) → get_elem? h' k ≡ (if k == i then some z else get_elem? h k))
    (place : z.index ≡ i) (only : (k : ℕ) (y : Item) → get_elem? h k ≡ some y → y.id ≡ z.id → k ≡ i)
    (replaced : (y : Item) → get_elem? h i ≡ some y → y.id ≡ z.id) where
  abbrev after : Schedule
  after = put f z.id (some (z.value, z.next))

  new_at : (k : ℕ) (x : Item) → (k == i) ≡ true → get_elem? h' k ≡ some x → x ≡ z
  new_at k x e at = some_inj (sym at ∙ look k ∙ rw e refl)

  old_at : (k : ℕ) (x : Item) → (k == i) ≡ false → get_elem? h' k ≡ some x → get_elem? h k ≡ some x
  old_at k x e at = sym (look k ∙ rw e refl) ∙ at

  -- an item at another place has another identifier
  apart :
      (k : ℕ) (x : Item) → (k == i) ≡ false → get_elem? h k ≡ some x → bytes_eq z.id x.id ≡ false
  apart k x e at = elim (Bool-cases (bytes_eq z.id x.id)) [
    | inr n ↦ n
    | inl s ↦ let here = only k x at (sym ((bytes_eq_iff z.id x.id).0 s)) in absurd (ground arith)
  ]

  written-IsIndexed : IsIndexed h'
  written-IsIndexed k x at = elim (Bool-cases (k == i)) [
    | inl e ↦ ap (λ (y : Item). y.index) (new_at k x e at) ∙ place ∙ sym ((==_iff k i).0 e)
    | inr e ↦ old.indexed k x (old_at k x e at)
  ]

  written_sound : (k : ℕ) (x : Item) → get_elem? h' k ≡ some x → after x.id ≡ some (x.value, x.next)
  written_sound k x at = elim (Bool-cases (k == i)) [
    | inl e ↦
        subst (λ (y : Item). after y.id ≡ some (y.value, y.next)) (sym (new_at k x e at))
          (rw (bytes_eq_refl z.id) refl)
    | inr e ↦ rw (apart k x e (old_at k x e at)) (old.sound k x (old_at k x e at))
  ]

  written_distinct :
      (k m : ℕ) (x y : Item)
      → get_elem? h' k ≡ some x
      → get_elem? h' m ≡ some y
      → x.id ≡ y.id
      → k ≡ m
  written_distinct k m x y a b same = elim (Bool-cases (k == i)) [
    | inl e ↦ elim (Bool-cases (m == i)) [
      | inl g ↦ (==_iff k i).0 e ∙ sym ((==_iff m i).0 g)
      | inr g ↦
          (==_iff k i).0 e
          ∙ sym (only m y (old_at m y g b) (sym same ∙ ap (λ (w : Item). w.id) (new_at k x e a)))
    ]
    | inr e ↦ elim (Bool-cases (m == i)) [
      | inl g ↦
          only k x (old_at k x e a) (same ∙ ap (λ (w : Item). w.id) (new_at m y g b))
          ∙ sym ((==_iff m i).0 g)
      | inr g ↦ old.distinct k m x y (old_at k x e a) (old_at m y g b) same
    ]
  ]

  written_complete :
      (id : Bytes) (p : PJob) (t : Time)
      → after id ≡ some (p, t)
      → (k : ℕ) × (x : Item) × (get_elem? h' k ≡ some x) × (content x ≡ (id, p, t))
  written_complete id p t e = elim (Bool-cases (bytes_eq z.id id)) [
    | inl s ↦
        let here = (bytes_eq_iff z.id id).0 s in
        let v : (z.value, z.next) ≡ (p, t) = some_inj (sym (rw s refl) ∙ e) in
        (i, z, look i ∙ rw (==_refl i) refl, ap₂ (λ a b. (a, b.0, b.1)) here v)
    | inr s ↦
        let (k, x, at, c) = old.complete id p t (sym (rw s refl) ∙ e) in
        elim (Bool-cases (k == i)) [
          | inl g ↦
              let y = ap (get_elem? h) (sym ((==_iff k i).0 g)) ∙ at in
              let q = replaced x y in
              absurd (cc (s, (bytes_eq_iff z.id id).1 (sym q ∙ ap (λ (w : Content). w.0) c)))
          | inr g ↦ (k, x, look k ∙ rw g at, c)
        ]
  ]

  pub written-ItemsOf : ItemsOf h' after
  written-ItemsOf = record {
    indexed = written-IsIndexed;
    distinct = written_distinct;
    sound = written_sound;
    complete = written_complete;
  }
