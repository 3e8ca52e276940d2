-- ===== src/PendingRequestPool/Invariant/Expiring.antt =====
-- `checkTimeout` keeps the invariant.
use vhal_core.Prelude.{
  ℕ, ◌+◌, ◌≤◌, inl, inr, List, [], ◌∷◌, arith, ℕ_discrete, leb, Bool-cases, is_empty, All,
}
use vhal_core.Prelude.Dict.{Dict, IsMap}
use vhal_core.PendingRequestPool.Invariant.{
  inr, inl, Bool-cases, arith, All, IsValidClient, IsValid, clients_mono,
}
use vhal_core.PendingRequestPool.{
  is_empty, leb, ◌∷◌, ℕ_discrete, List, PendingRequest, PendingRequestPool, expire, expire_clients,
  check_timeout, count_in,
}
use vhal_core.PendingRequestPool.Timeout.{expire_clients_absent}

-- What stays of a client's requests is an end of the list.
expire-IsValidClient :
    (due now : ℕ) (rs : List PendingRequest)
    → IsValidClient due rs
    → IsValidClient due (expire now rs).1
unfolding expire count_in
expire-IsValidClient due now [] v = v
expire-IsValidClient due now (r ∷ rs) v =
    let rest : IsValidClient due rs = record {
      distinct = v.distinct.2;
      ordered = v.ordered.1;
      recent = v.recent.1;
      bounded = omega (arith, v.bounded);
    } in
    elim (Bool-cases (leb now r.timeout_timestamp)) [
      | inl e ↦ rw e v
      | inr e ↦ rw e (expire-IsValidClient due now rs rest)
    ]

expire_clients-IsValid :
    (due now : ℕ) (m : Dict ℕ (List PendingRequest))
    → IsMap ℕ_discrete m
    → All (λ (e : ℕ × List PendingRequest). IsValidClient due e.1) m
    → IsMap ℕ_discrete (expire_clients now m).1
      × All (λ (e : ℕ × List PendingRequest). IsValidClient due e.1) (expire_clients now m).1
unfolding expire_clients
expire_clients-IsValid due now [] u a = (tt, tt)
expire_clients-IsValid due now ((c, rs) ∷ m) u a =
    let rest = expire_clients-IsValid due now m u.1 a.1 in
    elim (Bool-cases (is_empty (expire now rs).1)) [
      | inl e ↦ rw e rest
      | inr e ↦ rw e (
        (expire_clients_absent now c m u.0, rest.0),
        (expire-IsValidClient due now rs a.0, rest.1),
      )
    ]

pub check_timeout-IsValid :
    (before now : ℕ) (p : PendingRequestPool)
    → before ≤ now
    → IsValid before p
    → IsValid now (check_timeout now p).0
unfolding check_timeout
check_timeout-IsValid before now p h v =
    let due = now + p.timeout_in_nano in
    let m = p.pending_requests_by_client in
    let after =
      expire_clients-IsValid due now m v.by_client (clients_mono m (omega arith) v.clients) in
    record { by_client = after.0; clients = after.1 }
