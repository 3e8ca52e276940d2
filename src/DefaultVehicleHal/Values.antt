-- ===== src/DefaultVehicleHal/Values.antt =====
-- `getValues` and `setValues` of DefaultVehicleHal.cpp as a whole.
use vhal_core.Prelude.{
  ◌≡◌, refl, sym, ap, ◌⊎◌, inl, inr, Bool, true, false, not, ◌||◌, none, some, List, [], ◌∷◌, map,
  if◌then◌else◌, Bool-cases, is_none,
}
use vhal_core.HalTypes.{StatusCode, VhalResult, ok, err}
use vhal_core.Floats.{Floats}
use vhal_core.HalTypes.{ok_code, invalid_arg, VehiclePropValue, VehiclePropConfig, write}
use vhal_core.SubscriptionManager.{Callback}
use vhal_core.VehicleUtils.{
  passed, is_global_prop, get_area_config, check_prop_value, check_value_range,
}
use vhal_core.ConnectedClient.{GetValueResult, SetValueResult}
use vhal_core.DefaultVehicleHal.State.{
  GetValueRequest, SetValueRequest, service_specific, for_get, gets, get_values_results, Hardware,
  Outside, Vhal,
}
use vhal_core.DefaultVehicleHal.Configs.{get_config}
use vhal_core.DefaultVehicleHal.Checks.{
  has_required_access, area_has_access, check_read_permission, has_duplicate,
}
use vhal_core.DefaultVehicleHal.Requests.{split_gets, get_values, check_set}
use vhal_core.DefaultVehicleHal.Dispatch.{IsDone, dispatch_lem, VhalResult-cases}

-- The elements that pass the test.
abbrev pub select : {A : Type 0} → (A → Bool) → List A → List A
select p [] = []
select p (x ∷ xs) = let rest = select p xs in if p x then x ∷ rest else rest

abbrev pub is_ok : VhalResult (Unit {0}) → Bool
is_ok (ok _) = true
is_ok (err e) = false

abbrev pub error_of : VhalResult (Unit {0}) → StatusCode
error_of (ok _) = ok_code
error_of (err e) = e

module _ {F : Type 0} (f : Floats F) (hw : Hardware F) (out : Outside) where
  abbrev pub can_read : Vhal F → GetValueRequest F → Bool
  can_read s r = is_ok (check_read_permission hw out s r.prop)

  abbrev pub read_refusal : Vhal F → GetValueRequest F → GetValueResult F
  read_refusal s r = record {
    request_id = r.request_id;
    status = error_of (check_read_permission hw out s r.prop);
    prop = none;
  }

  split_gets_lem :
      (s : Vhal F) (rs : List (GetValueRequest F))
      → split_gets f hw out s rs
        ≡ (map (read_refusal s) (select (λ r. not (can_read s r)) rs), select (can_read s) rs)
  unfolding split_gets
  split_gets_lem s [] = refl
  split_gets_lem s (r ∷ rs) = elim (VhalResult-cases (check_read_permission hw out s r.prop)) [
    | inl e ↦ rw (e, split_gets, split_gets_lem s rs) refl
    | inr (c, e) ↦
        rw (e, split_gets, split_gets_lem s rs)
          (ap
            (λ x. (
              record { request_id = r.request_id; status = error_of x; prop = none }
                  ∷ map (read_refusal s) (select (λ q. not (can_read s q)) rs),
              select (can_read s) rs,
            ))
            (sym e))
  ]

  -- If checkDuplicateRequests finds two requests that are the same, getValues changes nothing and returns INVALID_ARG. Else, if the client's binder is dead, it returns the transaction error, and nothing becomes pending or ceases to be, is sent, or is asked of the hardware. Else the client has an object in the map, the one it had if there was one, and if the pool does not accept the IDs of the requests for properties that can be read, its error is returned with as little effect. Else these requests are pending for the client next to all that was pending, and the hardware is given exactly these in their order, if there are any, and its status is returned; the client is sent an error result for each other request, with the status that the check of its permission gave, and then, of each batch of results that the hardware gives before it returns, those that are waited for and that no earlier batch has answered; what the batches have answered is not pending any more, nor are the requests themselves if the hardware refuses them.
  pub get_values_lem :
      (callback : Callback) (requests : List (GetValueRequest F)) (s : Vhal F)
      → ((has_duplicate f (map (λ r. r.prop) requests) [] ≡ true)
          × (get_values f hw out (some callback) requests s ≡ (s, service_specific invalid_arg)))
        ⊎ ((has_duplicate f (map (λ r. r.prop) requests) [] ≡ false)
            × IsDone hw out for_get
                (λ r. r.request_id)
                (λ r. r.request_id)
                gets
                get_values_results
                hw.get_results_before_return
                callback
                (map (read_refusal s) (select (λ r. not (can_read s r)) requests))
                (select (can_read s) requests)
                s
                (get_values f hw out (some callback) requests s))
  unfolding get_values
  get_values_lem callback requests s =
      elim (Bool-cases (has_duplicate f (map (λ r. r.prop) requests) [])) [
        | inl e ↦ inl (e, rw (e, get_values) refl)
        | inr e ↦ inr (
          e,
          rw (e, get_values, split_gets_lem s requests)
              (dispatch_lem hw out for_get (λ r. r.request_id) (λ r. r.request_id) gets
                get_values_results hw.get_results_before_return callback _ _ s),
        )
      ]

  abbrev pub can_set : Vhal F → SetValueRequest F → Bool
  can_set s r = elim (check_set f hw out s r.value) [ none ↦ false | some c ↦ is_ok c ]

  abbrev pub set_refusal : Vhal F → SetValueRequest F → SetValueResult
  set_refusal s r = record {
    request_id = r.request_id;
    status = elim (check_set f hw out s r.value) [ none ↦ ok_code | some c ↦ error_of c ];
  }

  -- The property is known and has the area, may be written there, and the value fits its type and
  -- range.
  abbrev pub CanSet : Vhal F → VehiclePropValue F → Type 0
  CanSet s v =
      (config : VehiclePropConfig F) × (get_config hw out s v.prop ≡ some config)
      × ((is_global_prop v.prop || not (is_none (get_area_config v.prop v.area_id config))) ≡ true)
      × ((has_required_access config.access write
            || area_has_access (get_area_config v.prop v.area_id config) write)
          ≡ true)
      × (check_prop_value v config ≡ passed)
      × (check_value_range f v (get_area_config v.prop v.area_id config) ≡ passed)
