-- ===== src/SubscriptionManager/Combined.antt =====
-- The combined configuration against the configurations of the clients.
use vhal_core.Prelude.{
  ℕ, ◌≡◌, ◌∙◌, Bool, true, false, ◌&&◌, [], ◌∷◌, arith, ℕ_discrete, if◌then◌else◌, all, All,
}
use vhal_core.Prelude.Dict.{Dict, insert, remove, insert-All, remove-All}
use vhal_core.Floats.{Floats}
use vhal_core.SubscriptionManager.{
  SubConfig, ContSubConfigs, combine, refresh_combined_config, add_client, remove_client,
}

-- What the theorems need of `<`, of which floats that are numbers: it is false of a NaN, so only the
-- float in the middle has to be one.
pub record IsOrderedFloat {F : Type 0} (f : Floats F) (is_number : F → Bool) : Type 0 where
  pub lt_irrefl : (a : F) → f.lt_float a a ≡ false
  pub not-lt_trans :
      (a b c : F)
      → is_number b ≡ true
      → f.lt_float b a ≡ false
      → f.lt_float c b ≡ false
      → f.lt_float c a ≡ false
  pub not-lt_of_lt : (a b : F) → f.lt_float a b ≡ true → f.lt_float b a ≡ false

module _ {F : Type 0} (f : Floats F) (is_number : F → Bool) (o : IsOrderedFloat f is_number) where
  -- The rate is no less, and the resolution no greater, than what each client asks for.
  abbrev pub IsBound : F → F → Dict ℕ (SubConfig F) → Type 0
  IsBound rate resolution = All λ e.
      (f.lt_float rate e.1.sample_rate_hz ≡ false) × (f.lt_float e.1.resolution resolution ≡ false)

  -- No client asks for a NaN.
  abbrev pub IsNumeric : ℕ × SubConfig F → Type 0
  IsNumeric e = (is_number e.1.sample_rate_hz ≡ true) × (is_number e.1.resolution ≡ true)

  combine_grows :
      (m : Dict ℕ (SubConfig F)) (rate resolution : F) (vur : Bool)
      → is_number rate ≡ true
      → is_number resolution ≡ true
      → All IsNumeric m
      → let (rate', resolution', _) = combine f m rate resolution vur in
        (f.lt_float rate' rate ≡ false) × (f.lt_float resolution resolution' ≡ false)
  unfolding combine
  combine_grows [] rate resolution vur n n' k = (o.lt_irrefl rate, o.lt_irrefl resolution)
  combine_grows ((client, c) ∷ m) rate resolution vur n n' k =
      let rate1 = if f.lt_float rate c.sample_rate_hz then c.sample_rate_hz else rate in
      let resolution1 = if f.lt_float c.resolution resolution then c.resolution else resolution in
      let vur1 = if c.enable_vur then vur else false in
      let (rate2, resolution2, _) = combine f m rate1 resolution1 vur1 in
      let n1 : is_number rate1 ≡ true = ground (arith, n, k.0.0) in
      let n1' : is_number resolution1 ≡ true = ground (arith, n', k.0.1) in
      let (up, down) = combine_grows m rate1 resolution1 vur1 n1 n1' k.1 in
      let step : f.lt_float rate1 rate ≡ false =
        ground (arith, o.lt_irrefl rate, o.not-lt_of_lt rate c.sample_rate_hz) in
      let step' : f.lt_float resolution resolution1 ≡ false =
        ground (arith, o.lt_irrefl resolution, o.not-lt_of_lt c.resolution resolution) in
      (
        o.not-lt_trans rate rate1 rate2 n1 step up,
        o.not-lt_trans resolution2 resolution1 resolution n1' down step',
      )

  combine-IsBound :
      (m : Dict ℕ (SubConfig F)) (rate resolution : F) (vur : Bool)
      → is_number rate ≡ true
      → is_number resolution ≡ true
      → All IsNumeric m
      → let (rate', resolution', _) = combine f m rate resolution vur in IsBound rate' resolution' m
  unfolding combine
  combine-IsBound [] rate resolution vur n n' k = tt
  combine-IsBound ((client, c) ∷ m) rate resolution vur n n' k =
      let rate1 = if f.lt_float rate c.sample_rate_hz then c.sample_rate_hz else rate in
      let resolution1 = if f.lt_float c.resolution resolution then c.resolution else resolution in
      let vur1 = if c.enable_vur then vur else false in
      let (rate2, resolution2, _) = combine f m rate1 resolution1 vur1 in
      let n1 : is_number rate1 ≡ true = ground (arith, n, k.0.0) in
      let n1' : is_number resolution1 ≡ true = ground (arith, n', k.0.1) in
      let (up, down) = combine_grows m rate1 resolution1 vur1 n1 n1' k.1 in
      let here : f.lt_float rate1 c.sample_rate_hz ≡ false =
        ground (arith, o.lt_irrefl c.sample_rate_hz) in
      let here' : f.lt_float c.resolution resolution1 ≡ false =
        ground (arith, o.lt_irrefl c.resolution) in
      (
        (
          o.not-lt_trans c.sample_rate_hz rate1 rate2 n1 here up,
          o.not-lt_trans resolution2 resolution1 c.resolution n1' down here',
        ),
        combine-IsBound m rate1 resolution1 vur1 n1 n1' k.1,
      )

-- The configuration for the hardware reports continuously when one client asks for that.
combine-all :
    {F : Type 0} (f : Floats F) (m : Dict ℕ (SubConfig F)) (rate resolution : F) (vur : Bool)
    → (combine f m rate resolution vur).2 ≡ (vur && all (λ e. e.1.enable_vur) m)
unfolding combine
combine-all f [] rate resolution vur = ground arith
combine-all f ((client, c) ∷ m) rate resolution vur =
    combine-all f m _ _ (if c.enable_vur then vur else false) ∙ ground arith

module _ {F : Type 0} (f : Floats F) (is_number : F → Bool) (o : IsOrderedFloat f is_number) where
  -- Let `<` order the floats that are numbers, and let 0, the largest float, and the rates and resolutions that the clients ask for, those of the new one included, be numbers and not NaN. Whenever a client is then added or removed, the configuration for the hardware serves every client that is then there: its rate is not below, and its resolution not above, that of any of them, and it has variable update rate exactly if each of them has.
  pub add_client-remove_client-IsBound :
      (client : ℕ) (c : SubConfig F) (s : ContSubConfigs F)
      → is_number f.zero_float ≡ true
      → is_number f.max_float ≡ true
      → IsNumeric f is_number o (client, c)
      → All (IsNumeric f is_number o) s.config_by_client
      → let s1 = add_client f client c s in
        let s2 = remove_client f client s in
        (IsBound f is_number o s1.max_sample_rate_hz s1.min_required_resolution
            (insert ℕ_discrete client c s.config_by_client)
          × (s1.enable_vur
              ≡ all (λ e. e.1.enable_vur) (insert ℕ_discrete client c s.config_by_client)))
        × (IsBound f is_number o s2.max_sample_rate_hz s2.min_required_resolution
              (remove ℕ_discrete client s.config_by_client)
            × (s2.enable_vur
                ≡ all (λ e. e.1.enable_vur) (remove ℕ_discrete client s.config_by_client)))
  unfolding add_client remove_client refresh_combined_config
  add_client-remove_client-IsBound client c s z x n k =
      let P = IsNumeric f is_number o in
      let m1 = insert ℕ_discrete client c s.config_by_client in
      let m2 = remove ℕ_discrete client s.config_by_client in
      (
        (
          combine-IsBound f is_number o m1 f.zero_float f.max_float true z x
              (insert-All ℕ_discrete P client c s.config_by_client n k),
          combine-all f m1 f.zero_float f.max_float true,
        ),
        (
          combine-IsBound f is_number o m2 f.zero_float f.max_float true z x
              (remove-All ℕ_discrete P client s.config_by_client k),
          combine-all f m2 f.zero_float f.max_float true,
        ),
      )
