-- ===== src/RecurrentTimer/Schedule.antt =====
-- When RecurrentTimer.cpp calls a callback next.
use vhal_core.Prelude.{
  ℕ, ◌+◌, ◌-◌, ◌*◌, ◌/◌, ◌%◌, ◌≤◌, ◌<◌, ◌≡◌, refl, ap, ◌∙◌, if_pos, true, none, some, ◌∷◌, lookup,
  arith, ℕ_discrete, leb,
}
use vhal_core.Prelude.Dict.{insert, lookup-remove}
use native.Mathlib.Nat.{div-mul-le_self, lt-div-mul-add, add-mul-mod_self_right, add-mul, one-mul}
use vhal_core.RecurrentTimer.{
  CallbackInfo, sends_at, removes, RecurrentTimer, get_callback_id, insert_info, call_looper,
  schedule, register_timer_callback, unregister_timer_callback, advance, handle_message,
}

suc-times : (q i : ℕ) → (q + 1) * i ≡ q * i + i
suc-times q i = add-mul q 1 i ∙ ap (λ x. q * i + x) (one-mul i)

-- For a message that is due: the first time after now on the same grid.
advance-bounds :
    (now next i : ℕ)
    → 0 < i
    → next ≤ now
    → (now < advance now next i)
      × (advance now next i ≤ now + i)
      × (advance now next i % i ≡ next % i)
unfolding advance
advance-bounds now next i h due =
    let low = div-mul-le_self (now - next) i in
    let high = lt-div-mul-add {a = now - next} {b = i} h in
    let split = suc-times ((now - next) / i) i in
    let e : leb next now ≡ true = ground arith in
    rw e (omega arith, omega arith, add-mul-mod_self_right next ((now - next) / i + 1) i)

-- What `handle_message` does with a message that is due: the callback is called, and its next message is sent for the first time after now, at most one interval away, that is a whole number of intervals after the time of this one; nothing else changes.
pub handle_message_due :
    (id now : ℕ) (info : CallbackInfo) (t : RecurrentTimer)
    → lookup ℕ_discrete id t.callback_info_by_id ≡ some info
    → 0 < info.interval_in_nanos
    → info.next_time_in_nanos ≤ now
    → (next : ℕ) × ((now < next) × (next ≤ now + info.interval_in_nanos))
      × (next % info.interval_in_nanos ≡ info.next_time_in_nanos % info.interval_in_nanos)
      × (handle_message id now t ≡ (
        record t {
          callback_info_by_id =
              insert ℕ_discrete id
                (record info { next_time_in_nanos = next })
                t.callback_info_by_id;
          looper_calls = sends_at next id ∷ t.looper_calls;
        },
        some info.callback,
      ))
unfolding handle_message call_looper
handle_message_due id now info t h above due =
    let (low, high, rest) =
      advance-bounds now info.next_time_in_nanos info.interval_in_nanos above due in
    (
      advance now info.next_time_in_nanos info.interval_in_nanos,
      (low, high),
      rest,
      rw (h, handle_message) refl,
    )

-- Where a message finds nobody, nothing happens.
handle_message_outdated :
    (id now : ℕ) (t : RecurrentTimer)
    → lookup ℕ_discrete id t.callback_info_by_id ≡ none
    → handle_message id now t ≡ (t, none)
unfolding handle_message
handle_message_outdated id now t h = rw (h, handle_message) refl

-- After a registered callback is unregistered, a message of it that is still delivered calls nothing and changes nothing.
pub handle_message-unregister_timer_callback :
    (callback id now : ℕ) (t : RecurrentTimer)
    → get_callback_id callback t ≡ some id
    → handle_message id now (unregister_timer_callback callback t)
      ≡ (unregister_timer_callback callback t, none)
unfolding unregister_timer_callback call_looper
handle_message-unregister_timer_callback callback id now t h =
    handle_message_outdated id now (unregister_timer_callback callback t) (
      rw (h, unregister_timer_callback)
        (lookup-remove ℕ_discrete id id t.callback_info_by_id
          ∙ (rw (if_pos (ℕ_discrete id id) refl) refl)))

-- Registering a callback again, with whatever interval, leaves its old interval and next time in force; the looper only gets a message at a multiple of the new interval.
pub register_timer_callback_again :
    (interval callback now id : ℕ) (old : CallbackInfo) (t : RecurrentTimer)
    → get_callback_id callback t ≡ some id
    → lookup ℕ_discrete id t.callback_info_by_id ≡ some old
    → register_timer_callback interval callback now t ≡ record t {
      looper_calls = sends_at ((now / interval) * interval) id ∷ removes id ∷ t.looper_calls;
    }
unfolding register_timer_callback schedule insert_info call_looper
register_timer_callback_again interval callback now id old t h h' =
    rw (h, register_timer_callback, h', schedule, insert_info) refl
