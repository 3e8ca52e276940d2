-- ===== src/RecurrentTimer.antt =====
-- packages/vhal-types/aidl/impl/4/utils/common/{include/RecurrentTimer.h, src/RecurrentTimer.cpp}:
-- callbacks that are called again and again, each at its interval.
-- The looper is a queue of messages outside: the state keeps the calls of it, the last first, and
-- the delivery of a message is a call of `handle_message`. A callback is its pointer; times and
-- intervals are natural numbers, in nanoseconds, and an interval is not 0. IDs do not run out.
use vhal_core.Prelude.{
  ℕ, zero, suc, ◌+◌, ◌-◌, ◌*◌, ◌/◌, ◌%◌, ◌^◌, ◌≤◌, ◌<◌, ◌≡◌, refl, sym, ap, ◌∙◌, ◌≢◌, ◌↔◌, ◌⊎◌, inl,
  inr, ite, if_pos, if_neg, Bool, true, false, not, ◌&&◌, ◌||◌, Option, none, some, List, [], ◌∷◌,
  ◌++◌, map, lookup, arith, ℕ_discrete, ltb, leb, ◌==◌, if◌then◌else◌, Bool-cases, Option-cases,
  length, get_elem?, is_empty, is_none, all, All, All-append, length-append,
}
use vhal_core.Prelude.Int.{
  ℤ, pos, negsuc, ℤ_discrete, ltb_ℤ, eqb_ℤ, ◌≤ℤ◌, ◌<ℤ◌, eq_of_eqb_ℤ, eqb_ℤ_refl,
}
use vhal_core.Prelude.Sets.{
  contains, add, erase, IsUnique, contains-add, contains-erase, contains-append, add-IsUnique,
  erase-IsUnique,
}
use vhal_core.Prelude.Dict.{
  Dict, insert, remove, keys, IsMap, lookup-insert, lookup-remove, insert-All, remove-All,
  insert-IsMap, remove-IsMap, lookup_absent, lookup-All,
}
use vhal_core.HalTypes.{StatusCode, VhalResult, ok, err}
pub mod Schedule
mod Tests

pub record CallbackInfo : Type 0 where
  pub callback : ℕ
  pub interval_in_nanos : ℕ
  pub next_time_in_nanos : ℕ

pub data LooperCall : Type 0 where
  sends_at : ℕ → ℕ → LooperCall
  removes : ℕ → LooperCall

pub record RecurrentTimer : Type 0 where
  pub callback_id : ℕ
  pub id_by_callback : Dict ℕ ℕ
  pub callback_info_by_id : Dict ℕ CallbackInfo
  pub looper_calls : List LooperCall

-- `getCallbackIdLocked`, whose INVALID_ID is `none`.
unfoldable pub get_callback_id : ℕ → RecurrentTimer → Option ℕ
get_callback_id callback t = lookup ℕ_discrete callback t.id_by_callback

-- `mCallbackInfoById.insert`, which leaves an entry that is there.
unfoldable pub insert_info : ℕ → CallbackInfo → RecurrentTimer → RecurrentTimer
insert_info id info t = elim (lookup ℕ_discrete id t.callback_info_by_id) [
  | some old ↦ t
  | none ↦ record t { callback_info_by_id = insert ℕ_discrete id info t.callback_info_by_id }
]

unfoldable pub call_looper : LooperCall → RecurrentTimer → RecurrentTimer
call_looper c t = record t { looper_calls = c ∷ t.looper_calls }

-- The end of `registerTimerCallback`: the integer division has nothing left for `ceil` to round.
unfoldable pub schedule : ℕ → ℕ → ℕ → ℕ → RecurrentTimer → RecurrentTimer
unfolding insert_info call_looper
schedule id interval callback now t =
    let next = (now / interval) * interval in
    call_looper (sends_at next id) (
      insert_info id
        (record { callback = callback; interval_in_nanos = interval; next_time_in_nanos = next }) t)

unfoldable pub register_timer_callback : ℕ → ℕ → ℕ → RecurrentTimer → RecurrentTimer
unfolding get_callback_id schedule call_looper
register_timer_callback interval callback now t = elim (get_callback_id callback t) [
  | none ↦ schedule t.callback_id interval callback now (record t {
    callback_id = t.callback_id + 1;
    id_by_callback = insert ℕ_discrete callback t.callback_id t.id_by_callback;
  })
  | some id ↦ schedule id interval callback now (call_looper (removes id) t)
]

unfoldable pub unregister_timer_callback : ℕ → RecurrentTimer → RecurrentTimer
unfolding get_callback_id call_looper
unregister_timer_callback callback t = elim (get_callback_id callback t) [
  | none ↦ t
  | some id ↦ call_looper (removes id) (record t {
    callback_info_by_id = remove ℕ_discrete id t.callback_info_by_id;
    id_by_callback = remove ℕ_discrete callback t.id_by_callback;
  })
]

-- `intervalCount * intervalInNanos` added to the next time. C++ divides towards 0, so a message
-- that comes before its time takes whole intervals away before it adds one.
unfoldable pub advance : ℕ → ℕ → ℕ → ℕ
advance now next interval =
    if leb next now
    then next + ((now - next) / interval + 1) * interval
    else (next + interval) - ((next - now) / interval) * interval

-- The new state, and the callback that is called, if any.
unfoldable pub handle_message : ℕ → ℕ → RecurrentTimer → RecurrentTimer × Option ℕ
unfolding advance call_looper
handle_message id now t = elim (lookup ℕ_discrete id t.callback_info_by_id) [
  | none ↦ (t, none)
  | some info ↦
      let next = advance now info.next_time_in_nanos info.interval_in_nanos in
      (
        call_looper (sends_at next id) (record t {
          callback_info_by_id =
              insert ℕ_discrete id (record info { next_time_in_nanos = next })
                t.callback_info_by_id;
        }),
        some info.callback,
      )
]
