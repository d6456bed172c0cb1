-- ===== src/Tests/Dispatcher.antt =====
-- The dispatcher of periodic.go, with two jobs.
use go_devp2p.Prelude.{◌≡◌, refl, none, some, List, [], ◌∷◌, bytes_eq, ok}
use go_devp2p.Dispatcher.{PJob, Dispatcher, already_exists, add, get_tracked, new_dispatcher}
use go_devp2p.Dispatcher.Items.{Schedule}
use go_devp2p.Dispatcher.Runs.{
  Refines, Op, add_op, remove_op, dispatch_op, run, spec, spec_all, run-new_dispatcher, add-tracked,
}

abbrev job : PJob
job = record { job = 1 ∷ []; period = 5 }

abbrev ops : List Op
ops = add_op (1 ∷ []) 5 100 ∷ add_op (2 ∷ []) 7 101 ∷ dispatch_op job 105 ∷ remove_op (2 ∷ []) ∷ []

abbrev nothing : Schedule
nothing id = none

-- The theorems at concrete inputs.
run-new_dispatcher_example :
    (d : Dispatcher) × (run ops new_dispatcher ≡ ok d) × Refines d (spec_all ops nothing)
run-new_dispatcher_example = run-new_dispatcher ops

one_job :
    (d : Dispatcher) × (run (add_op (1 ∷ []) 5 100 ∷ []) new_dispatcher ≡ ok d)
    × Refines d (spec_all (add_op (1 ∷ []) 5 100 ∷ []) nothing)
one_job = run-new_dispatcher (add_op (1 ∷ []) 5 100 ∷ [])

scheduled : spec_all (add_op (1 ∷ []) 5 100 ∷ []) nothing (1 ∷ []) ≡ some (job, 105)
unfolding spec bytes_eq
scheduled = refl

add-tracked_example :
    (d' : Dispatcher) × (add (1 ∷ []) 9 101 one_job.0 ≡ ok (d', some already_exists))
    × (d'.heap ≡ one_job.0.heap)
    × (get_tracked (1 ∷ []) d'.tracked ≡ some (record { job = 1 ∷ []; period = 9 }))
    × Refines d' (spec_all (add_op (1 ∷ []) 5 100 ∷ []) nothing)
add-tracked_example =
    add-tracked one_job.0 (spec_all (add_op (1 ∷ []) 5 100 ∷ []) nothing) one_job.2 (1 ∷ []) 9 101
      (job, 105) scheduled
