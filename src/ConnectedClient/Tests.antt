-- ===== src/ConnectedClient/Tests.antt =====
-- Results for a client at concrete values.
use vhal_core.Prelude.{ℕ, ◌≡◌, ite, false, not, ◌&&◌, List, [], ◌∷◌, lookup, ℕ_discrete}
use vhal_core.Prelude.Int.{ℤ, pos, ℤ_discrete}
use vhal_core.Prelude.Sets.{contains, add, erase}
use vhal_core.Prelude.Dict.{insert}
use vhal_core.PendingRequestPool.{
  PendingRequestPool, init, add_requests, push_back, is_request_pending, is_pending_in,
  try_finish_requests, finish_in, finish_ids,
}
use vhal_core.ConnectedClient.{SetValueResult, id_set, keep_finished, get_or_set_values_callback}
use vhal_core.ConnectedClient.Results.{has_id, get_or_set_values_callback_lem}
use vhal_core.HalTypes.{ok_code}

program : Unit {0}
unfolding init add_requests push_back is_request_pending is_pending_in try_finish_requests finish_in
    finish_ids id_set keep_finished get_or_set_values_callback lookup insert contains add erase
    ℕ_discrete ℤ_discrete
program = tt

abbrev result : ℕ → SetValueResult
result n = record { request_id = pos n; status = ok_code }

-- Client 7 waits for 1 and 2.
abbrev pool : PendingRequestPool
pool = (add_requests 7 (pos 1 ∷ pos 2 ∷ []) 0 10 (init 100)).0

abbrev results : List SetValueResult
results = result 2 ∷ result 3 ∷ []

abbrev id_of : SetValueResult → ℤ
id_of r = r.request_id

get_or_set_values_callback_lem_example :
    (result 2 ∷ [] ≡ result 2 ∷ [])
    × ((c : ℕ) (i : ℤ)
        → is_request_pending c i (get_or_set_values_callback id_of 7 results pool).0 ≡ (
            is_request_pending c i pool
            && not (ite (ℕ_discrete c 7) (has_id id_of i results) false)))
    × ((get_or_set_values_callback id_of 7 results
          (get_or_set_values_callback id_of 7 results pool).0).1
        ≡ [])
unfolding program
get_or_set_values_callback_lem_example = get_or_set_values_callback_lem id_of 7 results pool
