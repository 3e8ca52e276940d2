-- ===== src/ConcurrentQueue/Order.antt =====
-- That ConcurrentQueue.h loses, repeats and reorders nothing.
use vhal_core.Prelude.{
  ◌≡◌, refl, sym, ap, ◌∙◌, inl, inr, Bool, true, false, ◌&&◌, List, [], ◌∷◌, ◌++◌, if◌then◌else◌,
  Bool-cases, is_empty,
}
use mathlib.Core.List.{append_assoc, append-nil}
use vhal_core.ConcurrentQueue.{
  new_queue, push, push_all, flush, deactivate, wait_for_items, Place, starting, testing, waiting,
  sleeping, flushing, leaving, ended, Batching, new_batching, request_stop, receive, worker_step,
}

-- What any thread can do next.
pub data Action (A : Type 0) : Type 0 where
  pushes : A → Action A
  pushes_all : List A → Action A
  deactivates : Action A
  requests_stop : Action A
  works : Action A

-- All items of the batches, in their order.
abbrev pub concat {ℓ} : {A : Type ℓ} → List (List A) → List A
concat [] = []
concat (b ∷ bs) = b ++ concat bs

concat-append {ℓ} :
    {A : Type ℓ} (bs : List (List A)) (b : List A) → concat (bs ++ b ∷ []) ≡ concat bs ++ b
concat-append [] b = append-nil b
concat-append (c ∷ bs) b =
    ap (λ x. c ++ x) (concat-append bs b) ∙ sym (append_assoc c (concat bs) b)

module _ {A : Type 0} where
  abbrev pub act : Action A → Batching A → Batching A
  act (pushes a) b = record b { items = push a b.items }
  act (pushes_all xs) b = record b { items = push_all xs b.items }
  act deactivates b = record b { items = deactivate b.items }
  act requests_stop b = request_stop b
  act works b = worker_step b

  abbrev pub run : List (Action A) → Batching A → Batching A
  run [] b = b
  run (a ∷ acts) b = run acts (act a b)

  -- The specification: what is pushed until the queue is deactivated.
  abbrev pub pushed : List (Action A) → Bool → List A
  pushed [] active = []
  pushed (pushes a ∷ acts) active = if active then a ∷ pushed acts active else pushed acts active
  pushed (pushes_all xs ∷ acts) active =
      if active then xs ++ pushed acts active else pushed acts active
  pushed (deactivates ∷ acts) active = pushed acts false
  pushed (requests_stop ∷ acts) active = pushed acts active
  pushed (works ∷ acts) active = pushed acts active

  -- What has gone through the queue.
  abbrev pub passed_on : Batching A → List A
  passed_on b = concat b.batches ++ b.items.queue

  receive-passed_on : (b : Batching A) → passed_on (receive b) ≡ passed_on b
  unfolding receive flush
  receive-passed_on b = go b.items.queue
    where
      go :
          (q : List A)
          → concat (if is_empty q then b.batches else b.batches ++ q ∷ []) ++ []
            ≡ concat b.batches ++ q
      go [] = refl
      go (x ∷ q) = append-nil _ ∙ concat-append b.batches (x ∷ q)

  -- A step of the worker passes everything on, and leaves the queue as active as it is.
  IsKept : Batching A → Batching A → Type 0
  IsKept b b' = (passed_on b' ≡ passed_on b) × (b'.items.is_active ≡ b.items.is_active)

  worker_step-IsKept : (b : Batching A) → IsKept b (worker_step b)
  unfolding worker_step wait_for_items receive flush IsKept
  worker_step-IsKept b = go b.place
    where
      go : (p : Place) → IsKept b (worker_step (record b { place = p }))
      go starting = (refl, refl)
      go testing = (refl, refl)
      go waiting = elim (Bool-cases (is_empty b.items.queue && b.items.is_active)) [
        | inl e ↦ rw (e, worker_step, wait_for_items) (refl, refl)
        | inr e ↦ rw (e, worker_step, wait_for_items) (refl, refl)
      ]
      go sleeping = (refl, refl)
      go flushing = (receive-passed_on b, refl)
      go leaving = (refl, refl)
      go ended = (refl, refl)

  run-passed_on :
      (acts : List (Action A)) (b : Batching A)
      → passed_on (run acts b) ≡ passed_on b ++ pushed acts b.items.is_active
  unfolding push push_all deactivate request_stop IsKept
  run-passed_on [] b = sym (append-nil (passed_on b))
  run-passed_on (pushes a ∷ acts) b =
      run-passed_on acts (act (pushes a) b) ∙ elim (Bool-cases b.items.is_active) [
        | inl e ↦ rw (e, push) (simp append_assoc)
        | inr e ↦ rw (e, push) refl
      ]
  run-passed_on (pushes_all xs ∷ acts) b =
      run-passed_on acts (act (pushes_all xs) b) ∙ elim (Bool-cases b.items.is_active) [
        | inl e ↦ rw (e, push_all) (simp append_assoc)
        | inr e ↦ rw (e, push_all) refl
      ]
  run-passed_on (deactivates ∷ acts) b = run-passed_on acts (act deactivates b)
  run-passed_on (requests_stop ∷ acts) b = run-passed_on acts (act requests_stop b)
  run-passed_on (works ∷ acts) b =
      let (e, e') = worker_step-IsKept b in run-passed_on acts (worker_step b) ∙ (rw (e, e') refl)

  -- However pushes, steps of the worker, the deactivation and the request to stop are interleaved, what the consumer has received in its batches, followed by what is still in the queue, is what was pushed until the queue was deactivated: no item is lost, repeated or out of order.
  pub run-new_batching :
      (acts : List (Action A))
      → let b = run acts (new_batching {A = A}) in
        concat b.batches ++ b.items.queue ≡ pushed acts true
  unfolding new_batching new_queue
  run-new_batching acts = run-passed_on acts (new_batching {A = A})
