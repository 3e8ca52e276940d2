-- ===== src/ConnectedClient.antt =====
-- packages/vhal-server/aidl/impl/4/vhal/{include/ConnectedClient.h, src/ConnectedClient.cpp}: how
-- the results of the hardware and the timeouts get to a client of getValues or setValues.
-- `vectorToStableLargeParcelable` of this port passes the values on and does not fail
-- (packages/vhal-types/aidl/impl/4/utils/common/include/ParcelableUtils.h), so results are sent in
-- one message. What a client answers to a message is only logged, and left out.
use vhal_core.Prelude.{
  ℕ, zero, suc, ◌+◌, ◌-◌, ◌*◌, ◌/◌, ◌%◌, ◌^◌, ◌≤◌, ◌<◌, ◌≡◌, refl, sym, ap, ◌∙◌, ◌≢◌, ◌↔◌, ◌⊎◌, inl,
  inr, ite, if_pos, if_neg, Bool, true, false, not, ◌&&◌, ◌||◌, Option, none, some, List, [], ◌∷◌,
  ◌++◌, map, lookup, arith, ℕ_discrete, ltb, leb, ◌==◌, if◌then◌else◌, Bool-cases, Option-cases,
  length, get_elem?, is_empty, is_none, all, All, All-append, length-append,
}
use vhal_core.Prelude.Int.{
  ℤ, pos, negsuc, ℤ_discrete, ltb_ℤ, eqb_ℤ, ◌≤ℤ◌, ◌<ℤ◌, eq_of_eqb_ℤ, eqb_ℤ_refl,
}
use vhal_core.Prelude.Sets.{
  contains, add, erase, IsUnique, contains-add, contains-erase, contains-append, add-IsUnique,
  erase-IsUnique,
}
use vhal_core.Prelude.Dict.{
  Dict, insert, remove, keys, IsMap, lookup-insert, lookup-remove, insert-All, remove-All,
  insert-IsMap, remove-IsMap, lookup_absent, lookup-All,
}
use vhal_core.HalTypes.{StatusCode, VhalResult, ok, err}
pub mod Results
mod Tests
use vhal_core.HalTypes.{try_again, VehiclePropValue}
use vhal_core.PendingRequestPool.{PendingRequestPool, add_requests, try_finish_requests}

pub record GetValueResult (F : Type 0) : Type 0 where
  pub request_id : ℤ
  pub status : StatusCode
  pub prop : Option (VehiclePropValue F)

pub record SetValueResult : Type 0 where
  pub request_id : ℤ
  pub status : StatusCode

-- `GetSetValuesClient`: its own address, by which the pool knows it, the pointer of its
-- `IVehicleCallback`, and the identity of the timeout callback that its constructor makes.
pub record GetSetValuesClient : Type 0 where
  pub address : ℕ
  pub callback : ℕ
  pub timeout_callback : ℕ

-- `ConnectedClient::addRequests`
unfoldable pub add_client_requests :
    GetSetValuesClient
    → List ℤ
    → ℕ
    → PendingRequestPool
    → PendingRequestPool × VhalResult (Unit {0})
add_client_requests client ids now p = add_requests client.address ids client.timeout_callback now p

-- `ConnectedClient::tryFinishRequests`
unfoldable pub try_finish_client_requests :
    GetSetValuesClient → List ℤ → PendingRequestPool → PendingRequestPool × List ℤ
try_finish_client_requests client ids p = try_finish_requests client.address ids p

module _ {R : Type 0} (id_of : R → ℤ) where
  -- The loop that makes the set of the results' IDs.
  unfoldable pub id_set : List R → List ℤ
  id_set [] = []
  id_set (r ∷ rs) = add ℤ_discrete (id_of r) (id_set rs)

  -- The `while` loop of `getOrSetValuesCallback`, which erases the results that nobody waits for.
  unfoldable pub keep_finished : List ℤ → List R → List R
  keep_finished finished [] = []
  keep_finished finished (r ∷ rs) =
      let rest = keep_finished finished rs in
      if contains ℤ_discrete (id_of r) finished then r ∷ rest else rest

  -- `getOrSetValuesCallback`: the pool, and the results that are sent, if there are any.
  unfoldable pub get_or_set_values_callback :
      ℕ → List R → PendingRequestPool → PendingRequestPool × List R
  unfolding id_set keep_finished
  get_or_set_values_callback client results p =
      let (p', finished) = try_finish_requests client (id_set results) p in
      (p', keep_finished finished results)

-- The loops of `onTimeout`, for either kind of result.
unfoldable pub timeout_get_results : {F : Type 0} → List ℤ → List (GetValueResult F)
timeout_get_results [] = []
timeout_get_results (i ∷ ids) =
    record { request_id = i; status = try_again; prop = none } ∷ timeout_get_results ids

unfoldable pub timeout_set_results : List ℤ → List SetValueResult
timeout_set_results [] = []
timeout_set_results (i ∷ ids) =
    record { request_id = i; status = try_again } ∷ timeout_set_results ids
