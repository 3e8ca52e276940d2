-- ===== src/ConcurrentQueue/Stop.antt =====
-- That the worker thread of ConcurrentQueue.h ends when DefaultVehicleHal is destroyed.
use vhal_core.Prelude.{◌≡◌, refl, List, [], ◌∷◌}
use vhal_core.ConcurrentQueue.{
  deactivate, wait_for_items, Place, starting, testing, waiting, sleeping, flushing, leaving, ended,
  Batching, request_stop, receive, worker_step, flush,
}

module _ {A : Type 0} where
  -- `deactivate` of the queue and `requestStop`.
  unfoldable pub shut_down : Batching A → Batching A
  unfolding deactivate request_stop
  shut_down b = request_stop (record b { items = deactivate b.items })

  -- Wherever the worker stands, in whatever state, and whatever is in the queue: once the queue is deactivated and the stop requested, the worker waits for nothing any more and has ended after three steps at most, so that `waitStopped` returns.
  pub worker_step-shut_down :
      (b : Batching A) → (worker_step (worker_step (worker_step (shut_down b)))).place ≡ ended
  unfolding worker_step shut_down wait_for_items receive flush deactivate request_stop
  worker_step-shut_down b = go b.items.queue b.place
    where
      at_place : List A → Place → Batching A
      at_place q p = shut_down (record b { items = record b.items { queue = q }; place = p })

      go :
          (q : List A) (p : Place)
          → (worker_step (worker_step (worker_step (at_place q p)))).place ≡ ended
      go q starting = refl
      go q testing = refl
      go [] waiting = refl
      go (x ∷ q) waiting = refl
      go q sleeping = refl
      go q flushing = refl
      go q leaving = refl
      go q ended = refl
