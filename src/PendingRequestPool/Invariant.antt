-- ===== src/PendingRequestPool/Invariant.antt =====
-- What holds of a pool at every time: the IDs of a client are distinct and not too many, and its
-- requests stand in the order of their timeouts.
pub mod Adding
pub mod Finishing
pub mod Expiring
use vhal_core.Prelude.{
  ℕ, suc, ◌+◌, ◌≤◌, ◌≡◌, refl, ◌∙◌, Bool, true, false, ◌||◌, ite, Option, none, some, List, [], ◌∷◌,
  ◌++◌, arith, lookup, length, if◌then◌else◌, ℕ_discrete, Option-cases, Bool-cases, inl, inr, All,
  All-append, is_empty,
}
use vhal_core.Prelude.Int.{ℤ, ℤ_discrete}
use vhal_core.Prelude.Sets.{contains, add, erase, IsUnique, erase-IsUnique}
use vhal_core.Prelude.Dict.{Dict, insert, IsMap, insert-IsMap, insert-All, lookup-All}
use vhal_core.HalTypes.{VhalResult, ok, err}
use vhal_core.PendingRequestPool.Ids.{any_duplicate, scan-any_duplicate, is_pending_in-append}
use vhal_core.PendingRequestPool.Finish.{finish_ids-pending, finish_in-pending}
use vhal_core.PendingRequestPool.{
  PendingRequest, PendingRequestPool, max_pending_request_per_client, is_pending_in, count_in,
  push_back, add_requests, finish_ids, finish_in, try_finish_requests, expire, expire_clients,
  check_timeout, init,
}

-- No ID of one request is an ID of a later one, and none stands twice in one.
abbrev pub IsDistinct : List PendingRequest → Type 0
IsDistinct [] = Unit {0}
IsDistinct (r ∷ rs) =
    IsUnique ℤ_discrete r.request_ids
    × ((i : ℤ) → contains ℤ_discrete i r.request_ids ≡ true → is_pending_in i rs ≡ false)
    × IsDistinct rs

-- The requests stand in the order of their timeouts.
abbrev pub IsOrdered : List PendingRequest → Type 0
IsOrdered [] = Unit {0}
IsOrdered (r ∷ rs) =
    All (λ (s : PendingRequest). r.timeout_timestamp ≤ s.timeout_timestamp) rs × IsOrdered rs

-- The requests of one client, where no request is due later than `due`.
pub record IsValidClient (due : ℕ) (rs : List PendingRequest) : Type 0 where
  pub distinct : IsDistinct rs
  pub ordered : IsOrdered rs
  pub recent : All (λ (r : PendingRequest). r.timeout_timestamp ≤ due) rs
  pub bounded : count_in rs ≤ max_pending_request_per_client

-- The pool at time `now`.
pub record IsValid (now : ℕ) (p : PendingRequestPool) : Type 0 where
  pub by_client : IsMap ℕ_discrete p.pending_requests_by_client
  pub clients :
      All
        (λ (e : ℕ × List PendingRequest). IsValidClient (now + p.timeout_in_nano) e.1)
        p.pending_requests_by_client

recent_mono :
    (due due' : ℕ) (rs : List PendingRequest)
    → due ≤ due'
    → All (λ (r : PendingRequest). r.timeout_timestamp ≤ due) rs
    → All (λ (r : PendingRequest). r.timeout_timestamp ≤ due') rs
recent_mono due due' [] h a = tt
recent_mono due due' (r ∷ rs) h a = (omega arith, recent_mono due due' rs h a.1)

pub IsValidClient-mono :
    {due due' : ℕ} {rs : List PendingRequest}
    → due ≤ due'
    → IsValidClient due rs
    → IsValidClient due' rs
IsValidClient-mono {due} {due'} {rs} h v = record {
  distinct = v.distinct;
  ordered = v.ordered;
  recent = recent_mono due due' rs h v.recent;
  bounded = v.bounded;
}

pub clients_mono :
    {due due' : ℕ} (m : Dict ℕ (List PendingRequest))
    → due ≤ due'
    → All (λ (e : ℕ × List PendingRequest). IsValidClient due e.1) m
    → All (λ (e : ℕ × List PendingRequest). IsValidClient due' e.1) m
clients_mono [] h a = tt
clients_mono (e ∷ m) h a = (IsValidClient-mono h a.0, clients_mono m h a.1)

-- The invariant survives the passing of time.
pub IsValid-later :
    {before now : ℕ} {p : PendingRequestPool} → before ≤ now → IsValid before p → IsValid now p
IsValid-later {p} h v = record {
  by_client = v.by_client;
  clients = clients_mono p.pending_requests_by_client (omega arith) v.clients;
}
