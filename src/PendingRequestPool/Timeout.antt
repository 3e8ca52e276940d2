-- ===== src/PendingRequestPool/Timeout.antt =====
-- `checkTimeout` stops at the first request that is not overdue; on ordered requests it still finds
-- exactly the overdue ones.
use vhal_core.Prelude.{
  ℕ, ◌≤◌, ◌≡◌, refl, ap, false, none, some, List, [], ◌∷◌, ◌++◌, map, lookup, arith, ℕ_discrete,
  All,
}
use vhal_core.Prelude.Sets.{contains}
use vhal_core.Prelude.Dict.{Dict, keys, IsMap, lookup_absent}
use mathlib.Core.List.{[], lookup, ◌∷◌, map, List, filter}
use native.Mathlib.Decide.{ℕ_discrete, dec_le, dec_lt}
use vhal_core.PendingRequestPool.Invariant.{IsOrdered, IsValidClient, IsValid}
use vhal_core.PendingRequestPool.{
  false, PendingRequest, PendingRequestPool, call_of, expire, expire_clients, check_timeout,
}

-- The requests that have timed out at `now`, and those that have not.
abbrev pub overdue : ℕ → List PendingRequest → List PendingRequest
overdue now = filter λ r. dec_lt r.timeout_timestamp now

abbrev pub live : ℕ → List PendingRequest → List PendingRequest
live now = filter λ r. dec_le now r.timeout_timestamp

-- The overdue requests of all clients.
unfoldable pub all_overdue : ℕ → Dict ℕ (List PendingRequest) → List PendingRequest
all_overdue now [] = []
all_overdue now ((client, rs) ∷ m) = overdue now rs ++ all_overdue now m

-- The requests of one client; none, if the pool does not know it.
unfoldable pub requests_of : ℕ → Dict ℕ (List PendingRequest) → List PendingRequest
requests_of client m = elim (lookup ℕ_discrete client m) [ none ↦ [] | some rs ↦ rs ]

later_live :
    (now : ℕ) (rs : List PendingRequest)
    → All (λ (r : PendingRequest). now ≤ r.timeout_timestamp) rs
    → (overdue now rs ≡ []) × (live now rs ≡ rs)
later_live now [] a = (refl, refl)
later_live now (r ∷ rs) a = ground (arith, later_live now rs a.1)

All-le_trans :
    (a b : ℕ) (rs : List PendingRequest)
    → a ≤ b
    → All (λ (r : PendingRequest). b ≤ r.timeout_timestamp) rs
    → All (λ (r : PendingRequest). a ≤ r.timeout_timestamp) rs
All-le_trans a b [] h l = tt
All-le_trans a b (r ∷ rs) h l = (omega arith, All-le_trans a b rs h l.1)

pub expire_lem :
    (now : ℕ) (rs : List PendingRequest)
    → IsOrdered rs
    → expire now rs ≡ (overdue now rs, live now rs)
unfolding expire
expire_lem now [] o = refl
expire_lem now (r ∷ rs) o =
    ground (
      arith,
      expire_lem now rs o.1,
      later_live now rs,
      All-le_trans now r.timeout_timestamp rs,
      o.0,
    )

expire_clients_overdue :
    (now due : ℕ) (m : Dict ℕ (List PendingRequest))
    → All (λ (e : ℕ × List PendingRequest). IsValidClient due e.1) m
    → (expire_clients now m).0 ≡ all_overdue now m
unfolding expire_clients all_overdue
expire_clients_overdue now due [] a = refl
expire_clients_overdue now due ((client, rs) ∷ m) a =
    ground (arith, expire_lem now rs a.0.ordered, expire_clients_overdue now due m a.1)

pub expire_clients_absent :
    (now client : ℕ) (m : Dict ℕ (List PendingRequest))
    → contains ℕ_discrete client (keys m) ≡ false
    → contains ℕ_discrete client (keys (expire_clients now m).1) ≡ false
unfolding expire_clients contains
expire_clients_absent now client [] h = refl
expire_clients_absent now client ((c, rs) ∷ m) h =
    ground (arith, expire_clients_absent now client m)

expire_clients-live :
    (now due client : ℕ) (m : Dict ℕ (List PendingRequest))
    → IsMap ℕ_discrete m
    → All (λ (e : ℕ × List PendingRequest). IsValidClient due e.1) m
    → requests_of client (expire_clients now m).1 ≡ live now (requests_of client m)
unfolding expire_clients requests_of lookup ℕ_discrete
expire_clients-live now due client [] u a = refl
expire_clients-live now due client ((c, rs) ∷ m) u a =
    let (gone, kept) = expire now rs in
    ground (
      arith,
      expire_lem now rs a.0.ordered,
      expire_clients-live now due client m u.1 a.1,
      expire_clients_absent now c m u.0,
      lookup_absent ℕ_discrete c (expire_clients now m).1,
      lookup_absent ℕ_discrete c m u.0,
    )

-- At a valid pool the callbacks called are exactly those of the overdue requests, each with the IDs
-- of its request, and of every client exactly the requests that are not overdue stay.
pub check_timeout_lem :
    (before now client : ℕ) (p : PendingRequestPool)
    → IsValid before p
    → ((check_timeout now p).1 ≡ map call_of (all_overdue now p.pending_requests_by_client))
      × (requests_of client (check_timeout now p).0.pending_requests_by_client
          ≡ live now (requests_of client p.pending_requests_by_client))
unfolding check_timeout
check_timeout_lem before now client p v =
    let m = p.pending_requests_by_client in
    (
      ap (map call_of) (expire_clients_overdue now _ m v.clients),
      expire_clients-live now _ client m v.by_client v.clients,
    )
