-- ===== src/RecurrentTimer/Tests.antt =====
-- The timer at concrete values.
use vhal_core.Prelude.{ℕ, ◌%◌, ◌≤◌, ◌<◌, ◌≡◌, refl, none, some, [], ◌∷◌, lookup, arith, ℕ_discrete}
use vhal_core.Prelude.Dict.{insert, remove}
use vhal_core.RecurrentTimer.{
  CallbackInfo, sends_at, RecurrentTimer, get_callback_id, insert_info, call_looper, schedule,
  register_timer_callback, unregister_timer_callback, advance, handle_message,
}
use vhal_core.RecurrentTimer.Schedule.{handle_message_due, handle_message-unregister_timer_callback}

program : Unit {0}
unfolding get_callback_id insert_info call_looper schedule register_timer_callback
    unregister_timer_callback advance handle_message lookup insert remove ℕ_discrete
program = tt

abbrev idle : RecurrentTimer
idle = record { callback_id = 0; id_by_callback = []; callback_info_by_id = []; looper_calls = [] }

abbrev info : CallbackInfo
info = record { callback = 7; interval_in_nanos = 10; next_time_in_nanos = 20 }

abbrev running : RecurrentTimer
running = record {
  callback_id = 1;
  id_by_callback = (7, 0) ∷ [];
  callback_info_by_id = (0, info) ∷ [];
  looper_calls = sends_at 20 0 ∷ [];
}

registered : register_timer_callback 10 7 25 idle ≡ running
unfolding program
registered = refl

called : (handle_message 0 45 running).1 ≡ some 7
unfolding program
called = refl

early : advance 5 25 10 ≡ 15
unfolding program
early = refl

handle_message_due_example :
    (next : ℕ) × ((45 < next) × (next ≤ 55))
    × (next % 10 ≡ 0)
    × (handle_message 0 45 running ≡ (
      record running {
        callback_info_by_id =
            insert ℕ_discrete 0
              (record info { next_time_in_nanos = next })
              running.callback_info_by_id;
        looper_calls = sends_at next 0 ∷ running.looper_calls;
      },
      some 7,
    ))
unfolding program
handle_message_due_example = handle_message_due 0 45 info running refl (omega arith) (omega arith)

handle_message-unregister_timer_callback_example :
    handle_message 0 45 (unregister_timer_callback 7 running)
    ≡ (unregister_timer_callback 7 running, none)
unfolding program
handle_message-unregister_timer_callback_example =
    handle_message-unregister_timer_callback 7 0 45 running refl
