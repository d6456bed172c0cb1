-- ===== src/Dispatcher/Refines.antt =====
-- The dispatcher of periodic.go as a schedule.
use mathlib.Core.Path.{ap₂, subst, subst₂}
use go_devp2p.Prelude.{
  ℕ, zero, suc, ◌≡◌, refl, ap, sym, ◌∙◌, inl, inr, Bool, true, false, Option, none, some, some_inj,
  List, [], ◌∷◌, Bytes, bytes_eq, bytes_eq_iff, get_elem?, set, Bool-cases, if◌then◌else◌, ok,
  arith,
}
use go_devp2p.Dispatcher.{
  PJob, Time, Item, already_exists, not_there, PeriodicHeap, find, contains_key, delete_key, fix,
  heap_remove, push, update, remove,
}
use go_devp2p.Dispatcher.Swaps.{Content}
use go_devp2p.Dispatcher.Items.{Schedule, put, ItemsOf}
use go_devp2p.Dispatcher.Heap.{heap_push-ItemsOf, fix-ItemsOf, heap_remove-ItemsOf}

abbrev pub is_some {ℓ} : {A : Type ℓ} → Option A → Bool
is_some none = false
is_some (some _) = true

-- The heap and its map are the schedule.
pub record Implements (h : PeriodicHeap) (f : Schedule) : Type 0 where
  pub items : ItemsOf h.heap f
  pub keys : (id : Bytes) → contains_key id h.index ≡ is_some (f id)

find-some :
    (id : Bytes) (h : List Item) (k : ℕ) (x : Item)
    → get_elem? h k ≡ some x
    → x.id ≡ id
    → (m : ℕ) × (y : Item) × (find id h ≡ some y) × (get_elem? h m ≡ some y) × (y.id ≡ id)
unfolding find
find-some id [] k x at e = cc
find-some id (y ∷ h) zero x at e = (
  0,
  y,
  rw (find, (bytes_eq_iff y.id id).1 (ap (λ (z : Item). z.id) (some_inj at) ∙ e)) refl,
  refl,
  ap (λ (z : Item). z.id) (some_inj at) ∙ e,
)
find-some id (y ∷ h) (suc k) x at e = elim (Bool-cases (bytes_eq y.id id)) [
  | inl s ↦ (0, y, rw (find, s) refl, refl, (bytes_eq_iff y.id id).0 s)
  | inr s ↦
      let (m, z, found, there, same) = find-some id h k x at e in
      (suc m, z, rw (find, s) found, there, same)
]

contains_key-delete_key :
    (id k : Bytes) (ks : List Bytes)
    → contains_key id (delete_key k ks) ≡ (if bytes_eq k id then false else contains_key id ks)
unfolding contains_key delete_key
contains_key-delete_key id k [] = ground arith
contains_key-delete_key id k (x ∷ ks) =
    ground (
      arith,
      contains_key-delete_key id k ks,
      bytes_eq_iff x k,
      bytes_eq_iff x id,
      bytes_eq_iff k id,
    )

-- the value of a schedule after it is written
pub put-keys :
    (f : Schedule) (k id : Bytes) (v : Option (PJob × Time))
    → is_some (put f k v id) ≡ (if bytes_eq k id then is_some v else is_some (f id))
put-keys f k id v = elim (Bool-cases (bytes_eq k id)) [ inl e ↦ rw e refl | inr e ↦ rw e refl ]

module _ (h : PeriodicHeap) (f : Schedule) (i : Implements h f) where
  known : (id : Bytes) (v : PJob × Time) → f id ≡ some v → contains_key id h.index ≡ true
  known id v e = i.keys id ∙ ap is_some e

  unknown : (id : Bytes) → f id ≡ none → contains_key id h.index ≡ false
  unknown id e = i.keys id ∙ ap is_some e

  -- a key that is there is there after its value is written
  pub written_keys :
      (id : Bytes) (v old : PJob × Time)
      → f id ≡ some old
      → (k : Bytes) → is_some (f k) ≡ is_some (put f id (some v) k)
  written_keys id v old e k = elim (Bool-cases (bytes_eq id k)) [
    | inl s ↦ rw s (ap is_some (ap f (sym ((bytes_eq_iff id k).0 s)) ∙ e))
    | inr s ↦ rw s refl
  ]

  pub push-known :
      (p : PJob) (next : Time) (v : PJob × Time)
      → f p.job ≡ some v
      → push p next h ≡ ok (h, some already_exists)
  unfolding push
  push-known p next v e = rw (push, known p.job v e) refl

  pub push-Implements :
      (p : PJob) (next : Time)
      → f p.job ≡ none
      → (h' : PeriodicHeap) × (push p next h ≡ ok (h', none))
        × Implements h' (put f p.job (some (p, next)))
  unfolding push contains_key
  push-Implements p next e =
      let x : Item = record { id = p.job; value = p; next = next; index = 0 } in
      let (heap, u, is) = heap_push-ItemsOf h.heap f x e i.items in
      (
        record { index = p.job ∷ h.index; heap = heap },
        rw (push, unknown p.job e, u) refl,
        record {
          items = is;
          keys = λ id. ground (arith, i.keys id) ∙ sym (put-keys f p.job id (some (p, next)));
        },
      )

  -- the item of an identifier
  item :
      (id : Bytes) (q : PJob) (t : Time)
      → f id ≡ some (q, t)
      → (m : ℕ) × (x : Item) × (find id h.heap ≡ some x)
        × (get_elem? h.heap m ≡ some x)
        × (x.id ≡ id)
        × (x.index ≡ m)
        × (x.value ≡ q)
  item id q t e =
      let (k, y, at, c) = i.items.complete id q t e in
      let (m, x, found, there, same) = find-some id h.heap k y at (ap (λ (v : Content). v.0) c) in
      let value : (x.value, x.next) ≡ (q, t) =
        some_inj (sym (i.items.sound m x there) ∙ ap f same ∙ e) in
      (m, x, found, there, same, i.items.indexed m x there, ap (λ (v : PJob × Time). v.0) value)

  pub update-Implements :
      (id : Bytes) (next : Time) (q : PJob) (t : Time)
      → f id ≡ some (q, t)
      → (h' : PeriodicHeap) × (update id next h ≡ ok (h', none))
        × Implements h' (put f id (some (q, next)))
  unfolding update
  update-Implements id next q t e =
      let (m, x, found, there, same, place, value) = item id q t e in
      let (heap, u, is) = fix-ItemsOf h.heap f x m next there i.items in
      let at_place : fix x.index (set h.heap x.index (record x { id = id; next = next }))
          ≡ ok heap =
        ap₂ (λ a b. fix a (set h.heap a (record x { id = b; next = next }))) place (sym same) ∙ u in
      (
        record h { heap = heap },
        rw (update, known id (q, t) e, found, at_place) refl,
        record {
          items = subst₂ (λ a b. ItemsOf heap (put f a (some (b, next)))) same value is;
          keys = λ k. i.keys k ∙ written_keys id (q, next) (q, t) e k;
        },
      )

  pub update-unknown :
      (id : Bytes) (next : Time) → f id ≡ none → update id next h ≡ ok (h, some not_there)
  unfolding update
  update-unknown id next e = rw (update, unknown id e) refl

  pub remove-Implements :
      (id : Bytes) (q : PJob) (t : Time)
      → f id ≡ some (q, t)
      → (h' : PeriodicHeap) × (remove id h ≡ ok (h', none)) × Implements h' (put f id none)
  unfolding remove
  remove-Implements id q t e =
      let (m, x, found, there, same, place, value) = item id q t e in
      let (heap, u, is) = heap_remove-ItemsOf h.heap f x m there i.items in
      let at_place : heap_remove x.index h.heap ≡ ok heap =
        ap (λ a. heap_remove a h.heap) place ∙ u in
      (
        record { index = delete_key id h.index; heap = heap },
        rw (remove, known id (q, t) e, found, at_place) refl,
        record {
          items = subst (λ a. ItemsOf heap (put f a none)) same is;
          keys = λ k.
              contains_key-delete_key k id h.index
              ∙ ap (λ b. if bytes_eq id k then false else b) (i.keys k)
              ∙ sym (put-keys f id k none);
        },
      )
