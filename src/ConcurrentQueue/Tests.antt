-- ===== src/ConcurrentQueue/Tests.antt =====
-- The queue at concrete values.
use vhal_core.Prelude.{ℕ, ◌≡◌, refl, List, [], ◌∷◌, ◌++◌}
use vhal_core.ConcurrentQueue.{
  new_queue, push, push_all, flush, deactivate, wait_for_items, new_batching, request_stop, receive,
  worker_step, ended,
}
use vhal_core.ConcurrentQueue.Order.{
  Action, pushes, pushes_all, deactivates, works, concat, run, run-new_batching,
}
use vhal_core.ConcurrentQueue.Stop.{shut_down, worker_step-shut_down}

program : Unit {0}
unfolding new_queue push push_all flush deactivate wait_for_items new_batching request_stop receive
    worker_step shut_down
program = tt

abbrev acts : List (Action ℕ)
acts =
    pushes 1
    ∷ works
    ∷ works
    ∷ works
    ∷ pushes_all (2 ∷ 3 ∷ [])
    ∷ works
    ∷ works
    ∷ pushes 4
    ∷ deactivates
    ∷ pushes 5
    ∷ []

one_batch : (run acts new_batching).batches ≡ (1 ∷ 2 ∷ 3 ∷ []) ∷ []
unfolding program
one_batch = refl

run-new_batching_example :
    concat (run acts new_batching).batches ++ (run acts new_batching).items.queue
    ≡ 1 ∷ 2 ∷ 3 ∷ 4 ∷ []
unfolding program
run-new_batching_example = run-new_batching acts

worker_step-shut_down_example :
    (worker_step (worker_step (worker_step (shut_down (run acts new_batching))))).place ≡ ended
worker_step-shut_down_example = worker_step-shut_down (run acts new_batching)
