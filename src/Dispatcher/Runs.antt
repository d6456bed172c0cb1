-- ===== src/Dispatcher/Runs.antt =====
-- The dispatcher of periodic.go: a run of Add, Remove and dispatch as a run on a schedule.
use mathlib.Core.Path.{subst, fun_ext}
use go_devp2p.Prelude.{
  ℕ, ◌+◌, ◌≡◌, refl, ap, sym, ◌∙◌, inl, inr, Bool, true, false, Option, none, some, some_inj,
  Option-cases, List, [], ◌∷◌, Bytes, bytes_eq, bytes_eq_iff, bytes_eq_refl, Bool-cases,
  if◌then◌else◌, Result, ok, arith, ◌>>=◌, length, ◌++◌, ltb,
}
use go_devp2p.Dispatcher.{
  PJob, Time, HeapFault, HeapError, already_exists, PeriodicHeap, Dispatcher, get_tracked,
  delete_tracked, add, remove_job, dispatch, new_dispatcher, contains_key, remove,
}
use go_devp2p.Dispatcher.Items.{Schedule, put}
use go_devp2p.Dispatcher.Refines.{
  is_some, Implements, put-keys, push-known, written_keys, push-Implements, update-Implements,
  update-unknown, remove-Implements,
}

-- The dispatcher is the schedule: its heap is, and its map has the same jobs.
pub record Refines (d : Dispatcher) (f : Schedule) : Type 0 where
  pub heap : Implements d.heap f
  pub tracked : (id : Bytes) → is_some (get_tracked id d.tracked) ≡ is_some (f id)
  pub named : (id : Bytes) (p : PJob) → get_tracked id d.tracked ≡ some p → p.job ≡ id

-- what is done to a dispatcher
pub data Op : Type 0 where
  add_op : Bytes → ℕ → Time → Op
  remove_op : Bytes → Op
  dispatch_op : PJob → Time → Op

unfoldable pub step : Op → Dispatcher → Result HeapFault (Dispatcher × Option HeapError)
step (add_op job period now) d = add job period now d
step (remove_op id) d = remove_job id d
step (dispatch_op p launch) d = do d' ← dispatch p launch d; ok (d', none)

-- the same, on a schedule
unfoldable pub spec : Op → Schedule → Schedule
spec (add_op job period now) f = elim (f job) [
  | none ↦ put f job (some (record { job = job; period = period }, now + period))
  | some _ ↦ f
]
spec (remove_op id) f = put f id none
spec (dispatch_op p launch) f = elim (f p.job) [
  | none ↦ f
  | some v ↦ put f p.job (some (v.0, launch + p.period))
]

abbrev pub refusal : Op → Schedule → Option HeapError
refusal (add_op job period now) f = if is_some (f job) then some already_exists else none
refusal (remove_op id) f = none
refusal (dispatch_op p launch) f = none

is_some-if {ℓ} :
    {A : Type ℓ} (b : Bool) (x y : Option A)
    → is_some (if b then x else y) ≡ (if b then is_some x else is_some y)
is_some-if true x y = refl
is_some-if false x y = refl

get_tracked-delete_tracked :
    (id k : Bytes) (ts : List (Bytes × PJob))
    → get_tracked id (delete_tracked k ts) ≡ (if bytes_eq k id then none else get_tracked id ts)
unfolding get_tracked delete_tracked
get_tracked-delete_tracked id k [] = ground arith
get_tracked-delete_tracked id k ((x, p) ∷ ts) = ground (
  arith,
  get_tracked-delete_tracked id k ts,
  bytes_eq_iff x k,
  bytes_eq_iff x id,
  bytes_eq_iff k id,
)

module _ (d : Dispatcher) (f : Schedule) (r : Refines d f) where
  -- the map after Add
  abbrev with_job : PJob → List (Bytes × PJob)
  with_job p = (p.job, p) ∷ delete_tracked p.job d.tracked

  get_tracked-with_job :
      (p : PJob) (id : Bytes)
      → get_tracked id (with_job p)
        ≡ (if bytes_eq p.job id then some p else get_tracked id d.tracked)
  unfolding get_tracked
  get_tracked-with_job p id = ground (arith, get_tracked-delete_tracked id p.job d.tracked)

  with_job-named :
      (p : PJob) (id : Bytes) (q : PJob) → get_tracked id (with_job p) ≡ some q → q.job ≡ id
  with_job-named p id q e = elim (Bool-cases (bytes_eq p.job id)) [
    | inl s ↦
        let same : p ≡ q = some_inj (sym (get_tracked-with_job p id ∙ rw s refl) ∙ e) in
        ap (λ (z : PJob). z.job) (sym same) ∙ (bytes_eq_iff p.job id).0 s
    | inr s ↦ r.named id q (sym (get_tracked-with_job p id ∙ rw s refl) ∙ e)
  ]

  with_job-tracked :
      (p : PJob) (id : Bytes)
      → is_some (get_tracked id (with_job p)) ≡ (if bytes_eq p.job id then true else is_some (f id))
  with_job-tracked p id =
      ap is_some (get_tracked-with_job p id)
      ∙ is_some-if (bytes_eq p.job id) (some p) (get_tracked id d.tracked)
      ∙ ap (λ b. if bytes_eq p.job id then true else b) (r.tracked id)

  add-new :
      (job : Bytes) (period : ℕ) (now : Time)
      → f job ≡ none
      → (d' : Dispatcher) × (add job period now d ≡ ok (d', none))
        × Refines d' (put f job (some (record { job = job; period = period }, now + period)))
  unfolding add
  add-new job period now e =
      let p : PJob = record { job = job; period = period } in
      let (heap, u, is) = push-Implements d.heap f r.heap p (now + period) e in
      (
        record d { heap = heap; tracked = with_job p; update_ch = true },
        rw (add, u) refl,
        record {
          heap = is;
          tracked = λ id. with_job-tracked p id ∙ sym (put-keys f job id (some (p, now + period)));
          named = with_job-named p;
        },
      )

  add-known :
      (job : Bytes) (period : ℕ) (now : Time) (v : PJob × Time)
      → f job ≡ some v
      → (d' : Dispatcher) × (add job period now d ≡ ok (d', some already_exists))
        × (get_tracked job d'.tracked ≡ some (record { job = job; period = period }))
        × (d'.heap ≡ d.heap)
        × Refines d' f
  unfolding add
  add-known job period now v e =
      let p : PJob = record { job = job; period = period } in
      (
        record d { tracked = with_job p },
        rw (add, push-known d.heap f r.heap p (now + period) v e) refl,
        get_tracked-with_job p job ∙ rw (bytes_eq_refl job) refl,
        refl,
        record {
          heap = r.heap;
          tracked = λ id. elim (Bool-cases (bytes_eq job id)) [
            | inl s ↦
                with_job-tracked p id
                ∙ rw s (sym (ap is_some (ap f (sym ((bytes_eq_iff job id).0 s)) ∙ e)))
            | inr s ↦ with_job-tracked p id ∙ rw s refl
          ];
          named = with_job-named p;
        },
      )

  put-none : (id : Bytes) → f id ≡ none → f ≡ put f id none
  put-none id e = fun_ext (λ k. elim (Bool-cases (bytes_eq id k)) [
    | inl s ↦ ap f (sym ((bytes_eq_iff id k).0 s)) ∙ e ∙ sym (rw s refl)
    | inr s ↦ sym (rw s refl)
  ])

  remove_job-Refines :
      (id : Bytes)
      → (d' : Dispatcher) × (remove_job id d ≡ ok (d', none)) × Refines d' (put f id none)
  unfolding remove_job
  remove_job-Refines id = elim (Option-cases (get_tracked id d.tracked)) [
    | inl e ↦ elim (Option-cases (f id)) [
      | inl g ↦ (d, rw (remove_job, e) refl, subst (Refines d) (put-none id g) r)
      | inr (v, g) ↦ absurd (cc (sym (ap is_some e) ∙ r.tracked id ∙ ap is_some g))
    ]
    | inr (p, e) ↦
        let named = r.named id p e in
        elim (Option-cases (f id)) [
          | inl g ↦ absurd (cc (sym (ap is_some e) ∙ r.tracked id ∙ ap is_some g))
          | inr ((q, t), g) ↦
              let (heap, u, is) = remove-Implements d.heap f r.heap id q t g in
              let others = get_tracked-delete_tracked in
              (
                record d { heap = heap; tracked = delete_tracked id d.tracked; update_ch = true },
                rw (remove_job, e, ap (λ a. remove a d.heap) named ∙ u) refl,
                record {
                  heap = is;
                  tracked = λ k.
                      ap is_some (others k id d.tracked)
                      ∙ is_some-if (bytes_eq id k) none (get_tracked k d.tracked)
                      ∙ ap (λ b. if bytes_eq id k then false else b) (r.tracked k)
                      ∙ sym (put-keys f id k none);
                  named = λ k z h.
                      let h' : (if bytes_eq id k then none else get_tracked k d.tracked) ≡ some z =
                        sym (others k id d.tracked) ∙ h in
                      elim (Bool-cases (bytes_eq id k)) [
                        | inl s ↦ absurd (cc (s, h'))
                        | inr s ↦ r.named k z (sym (rw s refl) ∙ h')
                      ];
                },
              )
        ]
  ]

  -- what dispatch leaves
  abbrev launched : PJob → PeriodicHeap → Dispatcher
  launched p heap = record d {
    heap = heap;
    event_ch = if ltb (length d.event_ch) 10 then d.event_ch ++ p.job ∷ [] else d.event_ch;
  }

  dispatch-Refines :
      (p : PJob) (launch : Time)
      → (d' : Dispatcher) × (dispatch p launch d ≡ ok d')
        × Refines d' (spec (dispatch_op p launch) f)
  unfolding dispatch spec
  dispatch-Refines p launch = elim (Option-cases (f p.job)) [
    | inl e ↦ (
      launched p d.heap,
      rw (dispatch, update-unknown d.heap f r.heap p.job (launch + p.period) e) refl,
      rw (spec, e) record { heap = r.heap; tracked = r.tracked; named = r.named },
    )
    | inr ((q, t), e) ↦
        let (heap, u, is) = update-Implements d.heap f r.heap p.job (launch + p.period) q t e in
        (
          launched p heap,
          rw (dispatch, u) refl,
          rw (spec, e)
              record {
                heap = is;
                tracked = λ k.
                    r.tracked k
                    ∙ written_keys d.heap f r.heap p.job (q, launch + p.period) (q, t) e k;
                named = r.named;
              },
        )
  ]

  pub step-Refines :
      (op : Op) → (d' : Dispatcher) × (step op d ≡ ok (d', refusal op f)) × Refines d' (spec op f)
  unfolding step spec
  step-Refines (add_op job period now) = elim (Option-cases (f job)) [
    | inl e ↦ rw (spec, e) (add-new job period now e)
    | inr (v, e) ↦ let (d', u, _, _, is) = add-known job period now v e in rw (spec, e) (d', u, is)
  ]
  step-Refines (remove_op id) = remove_job-Refines id
  step-Refines (dispatch_op p launch) =
      let (d', u, is) = dispatch-Refines p launch in (d', rw (step, u) refl, is)

unfoldable pub run : List Op → Dispatcher → Result HeapFault Dispatcher
run [] d = ok d
run (op ∷ ops) d = do (d', _) ← step op d; run ops d'

abbrev pub spec_all : List Op → Schedule → Schedule
spec_all [] f = f
spec_all (op ∷ ops) f = spec_all ops (spec op f)

pub run-Refines :
    (ops : List Op) (d : Dispatcher) (f : Schedule)
    → Refines d f
    → (d' : Dispatcher) × (run ops d ≡ ok d') × Refines d' (spec_all ops f)
unfolding run
run-Refines [] d f r = (d, refl, r)
run-Refines (op ∷ ops) d f r =
    let (d1, u, r1) = step-Refines d f r op in
    let (d2, v, r2) = run-Refines ops d1 (spec op f) r1 in (d2, rw (run, u) v, r2)

new_dispatcher-Refines : Refines new_dispatcher (λ id. none)
unfolding new_dispatcher get_tracked contains_key
new_dispatcher-Refines = record {
  heap = record {
    items = record {
      indexed = λ k x e. absurd (cc e);
      distinct = λ k m x y a b e. absurd (cc a);
      sound = λ k x e. absurd (cc e);
      complete = λ id p t e. absurd (cc e);
    };
    keys = λ id. refl;
  };
  tracked = λ id. refl;
  named = λ id p e. absurd (cc e);
}

-- Any sequence of Add, Remove and dispatch, from a new dispatcher, ends without a panic, with the
-- rounds that the heap loops are given, and leaves the heap and the map of jobs as those of the
-- schedule after the same sequence: Add schedules a job that is not there one period after now,
-- Remove takes a job away, dispatch reschedules a job that is there one period after its launch,
-- and nothing else changes.
pub run-new_dispatcher :
    (ops : List Op)
    → (d : Dispatcher) × (run ops new_dispatcher ≡ ok d) × Refines d (spec_all ops (λ id. none))
run-new_dispatcher ops = run-Refines ops new_dispatcher (λ id. none) new_dispatcher-Refines

-- On a dispatcher that is a schedule, Add of a job that is scheduled returns that it already exists
-- and leaves the heap as it is, while the map of jobs has the new period; the dispatcher is still
-- that schedule.
pub add-tracked :
    (d : Dispatcher) (f : Schedule)
    → Refines d f
    → (job : Bytes) (period : ℕ) (now : Time) (v : PJob × Time) → f job ≡ some v
    → (d' : Dispatcher) × (add job period now d ≡ ok (d', some already_exists))
      × (d'.heap ≡ d.heap)
      × (get_tracked job d'.tracked ≡ some (record { job = job; period = period }))
      × Refines d' f
add-tracked d f r job period now v e =
    let (d', u, tracked, heap, is) = add-known d f r job period now v e in
    (d', u, heap, tracked, is)
