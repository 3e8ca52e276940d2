-- ===== src/PendingRequestPool/History.antt =====
-- The pool under any sequence of calls: what the mutex lets through, one call at a time.
use vhal_core.HalTypes.{ok, err, invalid_arg, try_again}
use vhal_core.PendingRequestPool.Add.{any_request_pending, add_requests_result}
use vhal_core.Prelude.{
  if◌then◌else◌, ltb, length, ◌≡◌, ℕ, ◌+◌, ◌≤◌, inl, inr, List, lookup, arith, ℕ_discrete,
  Option-cases,
}
use vhal_core.Prelude.Int.{ℤ, ℤ_discrete}
use vhal_core.Prelude.Sets.{IsUnique}
use vhal_core.Prelude.Dict.{lookup-All}
use vhal_core.PendingRequestPool.Invariant.{IsValidClient, IsValid, IsValid-later}
use vhal_core.PendingRequestPool.Invariant.Adding.{add_requests-IsValid}
use vhal_core.PendingRequestPool.Invariant.Finishing.{try_finish_requests-IsValid}
use vhal_core.PendingRequestPool.Invariant.Expiring.{check_timeout-IsValid}
use vhal_core.PendingRequestPool.{
  PendingRequest, PendingRequestPool, max_pending_request_per_client, init, add_requests,
  count_pending_requests, try_finish_requests, check_timeout,
}

-- A call of a method; the timer thread's is `tick`.
pub data Call : Type 0 where
  adds : (client : ℕ) (ids : List ℤ) (callback : ℕ) → IsUnique ℤ_discrete ids → Call
  finishes : (client : ℕ) (ids : List ℤ) → Call
  tick : Call

unfoldable pub step : ℕ → Call → PendingRequestPool → PendingRequestPool
step now (adds client ids callback _) p = (add_requests client ids callback now p).0
step now (finishes client ids) p = (try_finish_requests client ids p).0
step now tick p = (check_timeout now p).0

-- The pools that calls in the order of their times lead to, with the time of the last.
pub data Reach (timeout : ℕ) : ℕ → PendingRequestPool → Type 0 where
  start : Reach timeout 0 (init timeout)
  call :
      {before : ℕ} {p : PendingRequestPool} (now : ℕ) (c : Call)
      → Reach timeout before p
      → before ≤ now
      → Reach timeout now (step now c p)

-- Every pool that calls lead to is valid.
pub Reach-IsValid : {timeout now : ℕ} {p : PendingRequestPool} → Reach timeout now p → IsValid now p
unfolding init step
Reach-IsValid start = record { by_client = tt; clients = tt }
Reach-IsValid (call {before} {p} now (adds client ids callback u) r h) =
    add_requests-IsValid client ids callback before now p u h (Reach-IsValid r)
Reach-IsValid (call {before} {p} now (finishes client ids) r h) =
    try_finish_requests-IsValid client ids now p (IsValid-later h (Reach-IsValid r))
Reach-IsValid (call {before} {p} now tick r h) =
    check_timeout-IsValid before now p h (Reach-IsValid r)

-- No client ever has more than 10000 requests pending.
Reach-count_pending_requests-le :
    {timeout now : ℕ} {p : PendingRequestPool} (client : ℕ)
    → Reach timeout now p
    → count_pending_requests client p ≤ max_pending_request_per_client
unfolding count_pending_requests
Reach-count_pending_requests-le {timeout} {now} {p} client r =
    elim (Option-cases (lookup ℕ_discrete client p.pending_requests_by_client)) [
      | inl e ↦ rw (e, count_pending_requests) (omega arith)
      | inr (rs, e) ↦
          rw (e, count_pending_requests)
            (lookup-All ℕ_discrete
              (λ (e : ℕ × List PendingRequest). IsValidClient (now + p.timeout_in_nano) e.1) client
              rs _ (Reach-IsValid r).clients e).bounded
    ]

-- Whatever calls have been made before, in the order of their times: a request is refused as invalid exactly if one of its IDs is pending for the client; else it is to be tried again exactly if the client would have more than 10000 requests pending, and else it is accepted.
pub Reach-add_requests :
    {timeout now : ℕ} {p : PendingRequestPool} (client : ℕ) (ids : List ℤ) (callback later : ℕ)
    → Reach timeout now p
    → (add_requests client ids callback later p).1 ≡ (
        if any_request_pending client ids p
        then err invalid_arg
        else if ltb 10000 (count_pending_requests client p + length ids)
        then err try_again
        else ok tt)
Reach-add_requests {p = p} client ids callback later r =
    add_requests_result client ids callback later p (Reach-count_pending_requests-le client r)
