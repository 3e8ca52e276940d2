-- ===== src/PendingRequestPool/Tests.antt =====
-- Runs of the pool, and its theorems at concrete inputs.
use vhal_core.Prelude.{◌≡◌, refl, true, false, [], ◌∷◌, lookup, arith, ℕ_discrete}
use vhal_core.Prelude.Int.{pos, ℤ_discrete}
use vhal_core.Prelude.Sets.{contains, add, erase, IsUnique}
use vhal_core.Prelude.Dict.{insert}
use vhal_core.HalTypes.{err}
use native.Mathlib.Decide.{dec_le, dec_lt}
use vhal_core.HalTypes.{invalid_arg}
use vhal_core.PendingRequestPool.Invariant.{IsValid}
use vhal_core.PendingRequestPool.Add.{any_request_pending, is_request_pending-add_requests}
use vhal_core.PendingRequestPool.Finish.{try_finish_requests_lem}
use vhal_core.PendingRequestPool.Timeout.{all_overdue, requests_of, live, check_timeout_lem}
use vhal_core.PendingRequestPool.History.{
  Call, Reach, start, call, adds, tick, step, Reach-IsValid, Reach-add_requests,
}
use vhal_core.PendingRequestPool.{
  PendingRequest, PendingRequestPool, init, add_requests, any_pending, scan, is_pending_in,
  is_request_pending, count_in, count_pending_requests, finish_ids, finish_in, try_finish_requests,
  expire, expire_clients, check_timeout, destroy,
}

program : Unit {0}
unfolding init add_requests any_pending scan is_pending_in is_request_pending count_in
    count_pending_requests finish_ids finish_in try_finish_requests expire expire_clients
    check_timeout destroy lookup insert contains add erase ℕ_discrete ℤ_discrete any_request_pending
    all_overdue requests_of dec_le dec_lt
program = tt

abbrev first : PendingRequest
first = record { request_ids = pos 1 ∷ pos 2 ∷ []; timeout_timestamp = 110; callback = 5 }

abbrev second : PendingRequest
second = record { request_ids = pos 3 ∷ []; timeout_timestamp = 130; callback = 6 }

-- Client 7 has two requests, with a timeout of 100.
abbrev two_requests : PendingRequestPool
two_requests = record {
  timeout_in_nano = 100;
  pending_requests_by_client = (7, first ∷ second ∷ []) ∷ [];
}

one_call :
    (add_requests 7 (pos 1 ∷ pos 2 ∷ []) 5 10 (init 100)).0
    ≡ record { timeout_in_nano = 100; pending_requests_by_client = (7, first ∷ []) ∷ [] }
unfolding program
one_call = refl

finish_two : try_finish_requests 7 (pos 3 ∷ pos 9 ∷ pos 1 ∷ []) two_requests ≡ (
  record two_requests {
    pending_requests_by_client = (7, record first { request_ids = pos 2 ∷ [] } ∷ []) ∷ [];
  },
  pos 3 ∷ pos 1 ∷ [],
)
unfolding program
finish_two = refl

time_out_one : check_timeout 120 two_requests ≡ (
  record two_requests { pending_requests_by_client = (7, second ∷ []) ∷ [] },
  (5, pos 1 ∷ pos 2 ∷ []) ∷ [],
)
unfolding program
time_out_one = refl

flushed : (destroy two_requests).1 ≡ (5, pos 1 ∷ pos 2 ∷ []) ∷ (6, pos 3 ∷ []) ∷ []
unfolding program
flushed = refl

two_requests-IsValid : IsValid 30 two_requests
unfolding program
two_requests-IsValid = record {
  by_client = (refl, tt);
  clients = (
    record {
      distinct = ((refl, (refl, tt)), λ i h. ground arith, ((refl, tt), λ i h. refl, tt));
      ordered = ((omega arith, tt), (tt, tt));
      recent = (omega arith, (omega arith, tt));
      bounded = omega arith;
    },
    tt,
  );
}

is_request_pending-add_requests_example :
    is_request_pending 7 (pos 1) (add_requests 7 (pos 4 ∷ []) 5 40 two_requests).0 ≡ true
unfolding program
is_request_pending-add_requests_example =
    is_request_pending-add_requests 7 (pos 4 ∷ []) 5 40 two_requests 7 (pos 1) refl

try_finish_requests_lem_example :
    (contains ℤ_discrete (pos 1) (try_finish_requests 7 (pos 1 ∷ []) two_requests).1 ≡ true)
    × (is_request_pending 7 (pos 1) (try_finish_requests 7 (pos 1 ∷ []) two_requests).0 ≡ false)
unfolding program
try_finish_requests_lem_example = try_finish_requests_lem 7 (pos 1 ∷ []) two_requests 7 (pos 1)

check_timeout_lem_example :
    ((check_timeout 120 two_requests).1 ≡ (5, pos 1 ∷ pos 2 ∷ []) ∷ [])
    × (requests_of 7 (check_timeout 120 two_requests).0.pending_requests_by_client
        ≡ live 120 (first ∷ second ∷ []))
unfolding program
check_timeout_lem_example = check_timeout_lem 30 120 7 two_requests two_requests-IsValid

one-IsUnique : IsUnique ℤ_discrete (pos 1 ∷ [])
unfolding contains
one-IsUnique = (refl, tt)

abbrev one_add : Call
one_add = adds 7 (pos 1 ∷ []) 5 one-IsUnique

abbrev ended : PendingRequestPool
ended = step 150 tick (step 10 one_add (init 100))

some_history : Reach 100 150 ended
some_history = call 150 tick (call 10 one_add start (omega arith)) (omega arith)

Reach-IsValid_example : IsValid 150 ended
Reach-IsValid_example = Reach-IsValid some_history

-- One of the IDs is pending, for a call before the timeout.
still_pending : Reach 100 10 (step 10 one_add (init 100))
still_pending = call 10 one_add start (omega arith)

Reach-add_requests_example :
    (add_requests 7 (pos 1 ∷ []) 5 40 (step 10 one_add (init 100))).1 ≡ err invalid_arg
unfolding program step
Reach-add_requests_example = Reach-add_requests 7 (pos 1 ∷ []) 5 40 still_pending
