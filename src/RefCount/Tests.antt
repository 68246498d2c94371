-- ===== src/RefCount/Tests.antt =====
-- The theorem about reference counters at a concrete run.
use snuk.Prelude.{◌≡◌, refl, [], ◌∷◌, some, ok, arith}
use snuk.RefCount.{create}
use snuk.RefCount.Steps
use snuk.RefCount.Steps.{run, held, counter_of, run-counter_of, held_step}

-- A second owner, a downgrade of the first, and the release of the second.
held_run : held (Steps.op_retain ∷ Steps.op_downgrade ∷ Steps.op_release ∷ []) 1 0 ≡ some (0, 1)
unfolding held held_step
held_run = refl

run-counter_of_example :
    run (Steps.op_retain ∷ Steps.op_downgrade ∷ Steps.op_release ∷ []) create ≡ ok (counter_of 0 1)
run-counter_of_example =
    run-counter_of (Steps.op_retain ∷ Steps.op_downgrade ∷ Steps.op_release ∷ []) 0 1 (omega arith)
      held_run
