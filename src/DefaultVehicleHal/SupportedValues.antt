-- ===== src/DefaultVehicleHal/SupportedValues.antt =====
-- That `getSupportedValuesLists` and `getMinMaxSupportedValue` of DefaultVehicleHal.cpp answer each
-- request in its place, though they ask the hardware for some of them only and all at once.
use vhal_core.Prelude.{
  ℕ, suc, ◌≡◌, refl, sym, ap, ◌∙◌, ◌⊎◌, inl, inr, Bool, true, false, ◌||◌, none, some, List, [],
  ◌∷◌, map, arith, ◌==◌, if◌then◌else◌, Bool-cases, Option-cases, length, is_empty,
}
use vhal_core.HalTypes.{ok_code, invalid_arg, internal_error, PropIdAreaId, HasSupportedValueInfo}
use vhal_core.DefaultVehicleHal.State.{
  SupportedValuesListResult, MinMaxSupportedValueResult, Status, success, service_specific,
  Hardware, Outside, Vhal,
}
use vhal_core.DefaultVehicleHal.Configs.{get_has_supported_value_info}
use vhal_core.DefaultVehicleHal.Supported.{
  set, scatter, sort_out, get_supported, get_supported_values_lists, get_min_max_supported_value,
}

scatter-suc :
    {A : Type 0} (x : A) (results : List A) (counters : List ℕ) (rs : List A)
    → scatter (x ∷ results) (map suc counters) rs ≡ x ∷ scatter results counters rs
unfolding scatter set
scatter-suc x results [] rs = refl
scatter-suc x results (i ∷ counters) [] = refl
scatter-suc x results (i ∷ counters) (r ∷ rs) = scatter-suc x (set results i r) counters rs

scatter-nil :
    {A : Type 0} (results : List A) (counters : List ℕ) → scatter results counters [] ≡ results
unfolding scatter
scatter-nil results [] = refl
scatter-nil results (i ∷ counters) = refl

length-map : {A B : Type 0} (f : A → B) (xs : List A) → length (map f xs) ≡ length xs
length-map f [] = refl
length-map f (x ∷ xs) = ap suc (length-map f xs)

module _ {F R : Type 0} (hw : Hardware F) (out : Outside) (s : Vhal F)
    (goes_on : HasSupportedValueInfo → Bool) (refused nothing : R) where
  -- The answer to one request, when `g` is that of the hardware.
  abbrev pub answer : (PropIdAreaId → R) → PropIdAreaId → R
  answer g key = elim (get_has_supported_value_info hw out s key.prop_id key.area_id) [
    | none ↦ refused
    | some info ↦ if goes_on info then g key else nothing
  ]

  module _ (ask : List PropIdAreaId → List R) where
    abbrev sorted : ℕ → List PropIdAreaId → List R × List ℕ × List PropIdAreaId
    sorted = sort_out hw out s goes_on refused nothing ask

    info-cases :
        (key : PropIdAreaId)
        → let info = get_has_supported_value_info hw out s key.prop_id key.area_id in
          (info ≡ none)
          ⊎ ((i : HasSupportedValueInfo) × (info ≡ some i)
              × ((goes_on i ≡ true) ⊎ (goes_on i ≡ false)))
    info-cases key =
        elim (Option-cases (get_has_supported_value_info hw out s key.prop_id key.area_id)) [
          | inl e ↦ inl e
          | inr (i, e) ↦ inr (i, e, Bool-cases (goes_on i))
        ]

    -- A later start shifts the counters.
    sort_out-suc :
        (n : ℕ) (ks : List PropIdAreaId)
        → sorted (suc n) ks ≡ ((sorted n ks).0, map suc (sorted n ks).1, (sorted n ks).2)
    unfolding sort_out
    sort_out-suc n [] = refl
    sort_out-suc n (key ∷ ks) = elim (info-cases key) [
      | inl e ↦ rw (e, sort_out, sort_out-suc (suc n) ks) refl
      | inr (i, e, inl g) ↦ rw (e, sort_out, g, sort_out-suc (suc n) ks) refl
      | inr (i, e, inr g) ↦ rw (e, sort_out, g, sort_out-suc (suc n) ks) refl
    ]

    length-sort_out :
        (n : ℕ) (ks : List PropIdAreaId) → length (sorted n ks).1 ≡ length (sorted n ks).2
    unfolding sort_out
    length-sort_out n [] = refl
    length-sort_out n (key ∷ ks) = elim (info-cases key) [
      | inl e ↦ rw (e, sort_out) (length-sort_out (suc n) ks)
      | inr (i, e, inl g) ↦ rw (e, sort_out, g) (ap suc (length-sort_out (suc n) ks))
      | inr (i, e, inr g) ↦ rw (e, sort_out, g) (length-sort_out (suc n) ks)
    ]

    scatter-sort_out :
        (g : PropIdAreaId → R) (ks : List PropIdAreaId)
        → scatter (sorted 0 ks).0 (sorted 0 ks).1 (map g (sorted 0 ks).2) ≡ map (answer g) ks
    unfolding sort_out scatter set
    scatter-sort_out g [] = refl
    scatter-sort_out g (key ∷ ks) =
        let (results, counters, to_hardware) = sorted 0 ks in
        let rest = λ (x : R) (e : answer g key ≡ x).
          scatter-suc x results counters (map g to_hardware)
          ∙ ap (λ xs. x ∷ xs) (scatter-sort_out g ks)
          ∙ ap (λ y. y ∷ map (answer g) ks) (sym e) in
        elim (info-cases key) [
          | inl e ↦ rw (e, sort_out, sort_out-suc 0 ks) (rest refused (rw (e, answer) refl))
          | inr (i, e, inl q) ↦
              rw (e, sort_out, q, sort_out-suc 0 ks) (rest (g key) (rw (e, answer, q) refl))
          | inr (i, e, inr q) ↦
              rw (e, sort_out, q, sort_out-suc 0 ks) (rest nothing (rw (e, answer, q) refl))
        ]

    put_together :
        (g : PropIdAreaId → R) (results : List R) (counters : List ℕ)
        (to_hardware : List PropIdAreaId)
        → ((ks : List PropIdAreaId) → ask ks ≡ map g ks)
        → length counters ≡ length to_hardware
        → ◌≡◌ {A = Status × List R}
            (if is_empty to_hardware
              then (success, results)
              else if length (ask to_hardware) == length counters
              then (success, scatter results counters (ask to_hardware))
              else (service_specific internal_error, []))
            (success, scatter results counters (map g to_hardware))
    put_together g results counters [] h l =
        ap (λ xs. (success, xs)) (sym (scatter-nil results counters))
    put_together g results counters (k ∷ ks) h l = rw (h (k ∷ ks)) (
        let same : length (map g (k ∷ ks)) ≡ length counters = length-map g (k ∷ ks) ∙ sym l in
        rw same (ground arith))

    get_supported_lem :
        (g : PropIdAreaId → R) (ps : List PropIdAreaId)
        → ((ks : List PropIdAreaId) → ask ks ≡ map g ks)
        → get_supported hw out s goes_on refused nothing ask ps ≡ (success, map (answer g) ps)
    unfolding get_supported
    get_supported_lem g ps h =
        put_together g (sorted 0 ps).0 (sorted 0 ps).1 (sorted 0 ps).2 h (length-sort_out 0 ps)
        ∙ ap (λ xs. (success, xs)) (scatter-sort_out g ps)

module _ {F : Type 0} (hw : Hardware F) (out : Outside) (s : Vhal F) where
  -- What each request is answered.
  abbrev pub list_answer :
      (PropIdAreaId → SupportedValuesListResult F) → PropIdAreaId → SupportedValuesListResult F
  list_answer g key = elim (get_has_supported_value_info hw out s key.prop_id key.area_id) [
    | none ↦ record { status = invalid_arg; supported_values_list = none }
    | some info ↦
        if info.has_supported_values_list
        then g key
        else record { status = ok_code; supported_values_list = none }
  ]

  abbrev pub min_max_answer :
      (PropIdAreaId → MinMaxSupportedValueResult F) → PropIdAreaId → MinMaxSupportedValueResult F
  min_max_answer g key = elim (get_has_supported_value_info hw out s key.prop_id key.area_id) [
    | none ↦ record { status = invalid_arg; min_supported_value = none; max_supported_value = none }
    | some info ↦
        if info.has_min_supported_value || info.has_max_supported_value
        then g key
        else record { status = ok_code; min_supported_value = none; max_supported_value = none }
  ]

  -- If the hardware answers each of its requests by itself, then so do getSupportedValuesLists and getMinMaxSupportedValue: they return a success with one result for each request, in the same order, whichever of the requests go to the hardware: an invalid argument where the property and area have no information on supported values, the hardware's answer where this says that there is something, and an empty success otherwise.
  pub get_supported_values_lem :
      (lists : PropIdAreaId → SupportedValuesListResult F)
      (min_max : PropIdAreaId → MinMaxSupportedValueResult F) (requests : List PropIdAreaId)
      → ((ks : List PropIdAreaId) → hw.supported_values_lists ks ≡ map lists ks)
      → ((ks : List PropIdAreaId) → hw.min_max_supported_values ks ≡ map min_max ks)
      → (get_supported_values_lists hw out s requests ≡ (success, map (list_answer lists) requests))
        × (get_min_max_supported_value hw out s requests
            ≡ (success, map (min_max_answer min_max) requests))
  unfolding get_supported_values_lists get_min_max_supported_value
  get_supported_values_lem lists min_max requests h h' = (
    get_supported_lem hw out s _ _ _ hw.supported_values_lists lists requests h,
    get_supported_lem hw out s _ _ _ hw.min_max_supported_values min_max requests h',
  )
