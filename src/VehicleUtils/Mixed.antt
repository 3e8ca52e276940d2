-- ===== src/VehicleUtils/Mixed.antt =====
-- `checkVendorMixedPropValue` against the layout that `configArray` describes.
use vhal_core.Prelude.{
  ℕ, ◌+◌, ◌^◌, ◌<◌, ◌≡◌, ◌↔◌, ◌⊎◌, List, [], ◌∷◌, arith, ◌==◌, if◌then◌else◌, length,
}
use vhal_core.Prelude.Int.{ℤ, pos}
use vhal_core.HalTypes.{RawPropValues}
use vhal_core.VehicleUtils.{passed, check_vendor_mixed_prop_value}

-- `configArray` as the layout of a mixed value: three single values, and the sizes of five vectors.
pub record Layout : Type 0 where
  pub has_string : ℕ
  pub has_boolean : ℕ
  pub has_int32 : ℕ
  pub int32_count : ℕ
  pub has_int64 : ℕ
  pub int64_count : ℕ
  pub has_float : ℕ
  pub float_count : ℕ
  pub byte_count : ℕ

abbrev pub to_config_array : Layout → List ℤ
to_config_array l =
    pos l.has_string
    ∷ pos l.has_boolean
    ∷ pos l.has_int32
    ∷ pos l.int32_count
    ∷ pos l.has_int64
    ∷ pos l.int64_count
    ∷ pos l.has_float
    ∷ pos l.float_count
    ∷ pos l.byte_count
    ∷ []

-- A flag counts only if it is 1.
abbrev pub flag : ℕ → ℕ
flag n = if n == 1 then 1 else 0

-- The entries are `int32_t`.
pub record IsLayout (l : Layout) : Type 0 where
  pub int32_bound : l.int32_count < 2 ^ 31
  pub int64_bound : l.int64_count < 2 ^ 31
  pub float_bound : l.float_count < 2 ^ 31

module _ {F : Type 0} where
  -- For a layout of non-negative entries `checkVendorMixedPropValue` passes exactly the values whose
  -- vectors have the sizes that the layout gives, where a byte count of 0 allows any bytes.
  pub check_vendor_mixed_prop_value_lem :
      (l : Layout) (v : RawPropValues F)
      → IsLayout l
      → (check_vendor_mixed_prop_value v (to_config_array l) ≡ passed) ↔ (
          (length v.int32_values ≡ flag l.has_boolean + flag l.has_int32 + l.int32_count)
          × (length v.int64_values ≡ flag l.has_int64 + l.int64_count)
          × (length v.float_values ≡ flag l.has_float + l.float_count)
          × ((l.byte_count ≡ 0) ⊎ (length v.byte_values ≡ l.byte_count)))
  unfolding check_vendor_mixed_prop_value
  check_vendor_mixed_prop_value_lem l v h = (λ e. ground arith, λ a. ground arith)
