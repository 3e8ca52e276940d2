-- ===== src/GeneratorHub.antt =====
-- packages/vhal-server/aidl/impl/4/fake_impl/GeneratorHub/{include, src}/GeneratorHub: the thread
-- that takes the events of all generators in the order of their times.
-- A generator is any type with its `nextEvent`. The event queue is a list by time, in which events
-- of one time stand as they came: one of the orders in which `std::priority_queue` may hand them
-- out. A step of the thread is what it does between taking its lock and giving it up; its clock,
-- and whether a timed sleep ended by the timeout, are arguments of the step. An ID stands for its
-- 32 bits.
use vhal_core.Prelude.{
  ℕ, zero, suc, ◌+◌, ◌-◌, ◌*◌, ◌/◌, ◌%◌, ◌^◌, ◌≤◌, ◌<◌, ◌≡◌, refl, sym, ap, ◌∙◌, ◌≢◌, ◌↔◌, ◌⊎◌, inl,
  inr, ite, if_pos, if_neg, Bool, true, false, not, ◌&&◌, ◌||◌, Option, none, some, List, [], ◌∷◌,
  ◌++◌, map, lookup, arith, ℕ_discrete, ltb, leb, ◌==◌, if◌then◌else◌, Bool-cases, Option-cases,
  length, get_elem?, is_empty, is_none, all, All, All-append, length-append,
}
use vhal_core.Prelude.Int.{
  ℤ, pos, negsuc, ℤ_discrete, ltb_ℤ, eqb_ℤ, ◌≤ℤ◌, ◌<ℤ◌, eq_of_eqb_ℤ, eqb_ℤ_refl,
}
use vhal_core.Prelude.Sets.{
  contains, add, erase, IsUnique, contains-add, contains-erase, contains-append, add-IsUnique,
  erase-IsUnique,
}
use vhal_core.Prelude.Dict.{
  Dict, insert, remove, keys, IsMap, lookup-insert, lookup-remove, insert-All, remove-All,
  insert-IsMap, remove-IsMap, lookup_absent, lookup-All,
}
use vhal_core.HalTypes.{StatusCode, VhalResult, ok, err}
use vhal_core.HalTypes.{VehiclePropValue}
pub mod Due
pub mod Linear
pub mod Pending
mod Tests

-- `VhalEvent`
pub record VhalEvent (F : Type 0) : Type 0 where
  pub generator_id : ℕ
  pub val : VehiclePropValue F

-- Where the thread stands in `run`: at the test of the loop, in `wait`, in `wait_for`, past the use
-- of a reference that may dangle, at its end.
pub data HubPlace : Type 0 where
  testing : HubPlace
  waiting : HubPlace
  sleeping : HubPlace
  undefined : HubPlace
  ended : HubPlace

-- The hub, its thread, and the calls of `mOnHalEvent`, in their order. `pushed` says that an event
-- was pushed since the thread began to sleep: the queue may have moved its elements then, among them
-- the one that the thread's reference `curEvent` means.
pub record GeneratorHub (F G : Type 0) : Type 0 where
  pub event_queue : List (VhalEvent F)
  pub generators : Dict ℕ G
  pub shutting_down : Bool
  pub pushed : Bool
  pub place : HubPlace
  pub hal_events : List (VehiclePropValue F)

unfoldable pub new_hub : {F G : Type 0} → GeneratorHub F G
new_hub = record {
  event_queue = [];
  generators = [];
  shutting_down = false;
  pushed = false;
  place = testing;
  hal_events = [];
}

module _ {F : Type 0} where
  -- `mEventQueue.push`
  unfoldable pub push_event : VhalEvent F → List (VhalEvent F) → List (VhalEvent F)
  push_event e [] = e ∷ []
  push_event e (x ∷ q) =
      if ltb_ℤ e.val.timestamp x.val.timestamp then e ∷ x ∷ q else x ∷ push_event e q

module _ {F G : Type 0} where
  -- `unregisterGenerator`
  unfoldable pub unregister_generator : ℕ → GeneratorHub F G → GeneratorHub F G × Bool
  unregister_generator id h = (
    record h { generators = remove ℕ_discrete id h.generators },
    not (is_none (lookup ℕ_discrete id h.generators)),
  )

  -- `~GeneratorHub`, up to its wait for the thread.
  unfoldable pub shut_down_hub : GeneratorHub F G → GeneratorHub F G
  shut_down_hub h = record h { shutting_down = true }

  -- The loop of `run` that pops the events whose generator does not exist.
  unfoldable pub prune_events : Dict ℕ G → List (VhalEvent F) → List (VhalEvent F)
  prune_events generators [] = []
  prune_events generators (e ∷ q) =
      if is_none (lookup ℕ_discrete e.generator_id generators)
      then prune_events generators q
      else e ∷ q

  module _ (next_event : G → Option (VehiclePropValue F × G)) where
    -- `registerGenerator`
    unfoldable pub register_generator : ℕ → G → GeneratorHub F G → GeneratorHub F G
    unfolding push_event
    register_generator id g h = elim (next_event g) [
      | none ↦ h
      | some (v, g') ↦ record h {
        event_queue =
            if is_none (lookup ℕ_discrete id h.generators)
            then push_event (record { generator_id = id; val = v }) h.event_queue
            else h.event_queue;
        generators = insert ℕ_discrete id g' h.generators;
        pushed = h.pushed || is_none (lookup ℕ_discrete id h.generators);
      }
    ]

    -- The end of the body of `run`, for the event that it has popped.
    unfoldable pub replace_event : ℕ → GeneratorHub F G → GeneratorHub F G
    unfolding push_event
    replace_event id h = elim (lookup ℕ_discrete id h.generators) [
      | none ↦ record h { generators = remove ℕ_discrete id h.generators }
      | some g ↦ elim (next_event g) [
        | none ↦ record h { generators = remove ℕ_discrete id h.generators }
        | some (v, g') ↦ record h {
          event_queue = push_event (record { generator_id = id; val = v }) h.event_queue;
          generators = insert ℕ_discrete id g' h.generators;
        }
      ]
    ]

    -- From `mOnHalEvent(curEvent.val)` on.
    unfoldable pub handle_event : GeneratorHub F G → GeneratorHub F G
    unfolding replace_event
    handle_event h = elim h.event_queue [
      | [] ↦ h
      | e ∷ q ↦
          replace_event e.generator_id
            (record h { event_queue = q; place = testing; hal_events = h.hal_events ++ e.val ∷ [] })
    ]

    -- From the call of `mCond.wait` on: it returns at once when its predicate holds.
    unfoldable pub await_event : ℤ → GeneratorHub F G → GeneratorHub F G
    unfolding handle_event
    await_event now h =
        let handled = handle_event h in
        if h.shutting_down then record h { place = ended } else elim h.event_queue [
          | [] ↦ record h { place = waiting }
          | e ∷ q ↦
              if ltb_ℤ now e.val.timestamp
              then record h { place = sleeping; pushed = false }
              else handled
        ]

    unfoldable pub hub_step : ℤ → Bool → GeneratorHub F G → GeneratorHub F G
    unfolding prune_events await_event
    hub_step now timed_out h = elim h.place [
      | testing ↦
          if h.shutting_down
          then record h { place = ended }
          else await_event now (record h { event_queue = prune_events h.generators h.event_queue })
      | waiting ↦ await_event now h
      | sleeping ↦
          let handled = handle_event h in
          if not timed_out
          then record h { place = testing }
          else if h.pushed
          then record h { place = undefined }
          else handled
      | undefined ↦ h
      | ended ↦ h
    ]
