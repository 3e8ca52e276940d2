-- ===== src/ConcurrentQueue.antt =====
-- packages/vhal-types/aidl/impl/4/utils/common/include/ConcurrentQueue.h: a queue between threads,
-- and the consumer that takes what is in it in batches.
-- Each method holds the queue's lock, so it is one step. `waitForItems` is a step that can be taken
-- once there is something to return; a consumer's sleep is no step of its own.
use vhal_core.Prelude.{
  ℕ, zero, suc, ◌+◌, ◌-◌, ◌*◌, ◌/◌, ◌%◌, ◌^◌, ◌≤◌, ◌<◌, ◌≡◌, refl, sym, ap, ◌∙◌, ◌≢◌, ◌↔◌, ◌⊎◌, inl,
  inr, ite, if_pos, if_neg, Bool, true, false, not, ◌&&◌, ◌||◌, Option, none, some, List, [], ◌∷◌,
  ◌++◌, map, lookup, arith, ℕ_discrete, ltb, leb, ◌==◌, if◌then◌else◌, Bool-cases, Option-cases,
  length, get_elem?, is_empty, is_none, all, All, All-append, length-append,
}
use vhal_core.Prelude.Int.{
  ℤ, pos, negsuc, ℤ_discrete, ltb_ℤ, eqb_ℤ, ◌≤ℤ◌, ◌<ℤ◌, eq_of_eqb_ℤ, eqb_ℤ_refl,
}
use vhal_core.Prelude.Sets.{
  contains, add, erase, IsUnique, contains-add, contains-erase, contains-append, add-IsUnique,
  erase-IsUnique,
}
use vhal_core.Prelude.Dict.{
  Dict, insert, remove, keys, IsMap, lookup-insert, lookup-remove, insert-All, remove-All,
  insert-IsMap, remove-IsMap, lookup_absent, lookup-All,
}
use vhal_core.HalTypes.{StatusCode, VhalResult, ok, err}
pub mod Order
pub mod Stop
mod Tests

pub record ConcurrentQueue (A : Type 0) : Type 0 where
  pub is_active : Bool
  pub queue : List A

unfoldable pub new_queue : {A : Type 0} → ConcurrentQueue A
new_queue = record { is_active = true; queue = [] }

module _ {A : Type 0} where
  -- `push(T&&)`
  unfoldable pub push : A → ConcurrentQueue A → ConcurrentQueue A
  push a q = if q.is_active then record q { queue = q.queue ++ a ∷ [] } else q

  -- `push(std::vector<T>&&)`
  unfoldable pub push_all : List A → ConcurrentQueue A → ConcurrentQueue A
  push_all xs q = if q.is_active then record q { queue = q.queue ++ xs } else q

  unfoldable pub flush : ConcurrentQueue A → ConcurrentQueue A × List A
  flush q = (record q { queue = [] }, q.queue)

  unfoldable pub deactivate : ConcurrentQueue A → ConcurrentQueue A
  deactivate q = record q { is_active = false }

  -- `waitForItems`: `none` while it waits.
  unfoldable pub wait_for_items : ConcurrentQueue A → Option Bool
  wait_for_items q = if is_empty q.queue && q.is_active then none else some q.is_active

-- `BatchingConsumer::State`
pub data State : Type 0 where
  initial : State
  running : State
  stop_requested : State
  stopped : State

-- Where the worker thread stands in `runInternal`: before the exchange, at the test of the loop, in
-- `waitForItems`, asleep, about to flush, after the loop, at its end.
pub data Place : Type 0 where
  starting : Place
  testing : Place
  waiting : Place
  sleeping : Place
  flushing : Place
  leaving : Place
  ended : Place

-- The queue, the consumer, and the batches given to `onBatchReceived`, in their order.
pub record Batching (A : Type 0) : Type 0 where
  pub items : ConcurrentQueue A
  pub state : State
  pub place : Place
  pub batches : List (List A)

unfoldable pub new_batching : {A : Type 0} → Batching A
unfolding new_queue
new_batching = record { items = new_queue; state = initial; place = starting; batches = [] }

abbrev is_initial : State → Bool
is_initial initial = true
is_initial _ = false

abbrev is_running : State → Bool
is_running running = true
is_running _ = false

abbrev is_stop_requested : State → Bool
is_stop_requested stop_requested = true
is_stop_requested _ = false

module _ {A : Type 0} where
  unfoldable pub request_stop : Batching A → Batching A
  request_stop b = record b { state = stop_requested }

  -- `flush` and the call of `onBatchReceived`.
  unfoldable pub receive : Batching A → Batching A
  unfolding flush
  receive b =
      let (q, batch) = flush b.items in
      record b {
        items = q;
        batches = if is_empty batch then b.batches else b.batches ++ batch ∷ [];
      }

  -- A step of the worker thread: up to the next look at what other threads change.
  unfoldable pub worker_step : Batching A → Batching A
  unfolding wait_for_items receive
  worker_step b = elim b.place [
    | starting ↦ record b {
      state = running;
      place = if is_initial b.state then testing else leaving;
    }
    | testing ↦ record b { place = if is_running b.state then waiting else leaving }
    | waiting ↦ elim (wait_for_items b.items) [
      | none ↦ b
      | some active ↦ record b { place = if is_stop_requested b.state then leaving else sleeping }
    ]
    | sleeping ↦ record b { place = if is_stop_requested b.state then leaving else flushing }
    | flushing ↦ record (receive b) { place = testing }
    | leaving ↦ record b { state = stopped; place = ended }
    | ended ↦ b
  ]
