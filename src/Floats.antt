-- ===== src/Floats.antt =====
-- What the code does with a `float`: the operations of C++ and its library, which are no part of
-- the repository. A section over `F` and its operations holds for any of them; where a theorem needs
-- a law of floats, the law is a hypothesis.
use vhal_core.Prelude.{Bool}
use vhal_core.Prelude.Int.{ℤ}

pub record Floats (F : Type 0) : Type 0 where
  -- `0.f`, `std::numeric_limits<float>::max()` and the constants of SubscriptionManager.cpp
  pub zero_float : F
  pub max_float : F
  pub epsilon : F
  pub one_second_in_nanos : F
  -- `==`, `<` and `<=`
  pub eq_float : F → F → Bool
  pub lt_float : F → F → Bool
  pub le_float : F → F → Bool
  pub sub_float : F → F → F
  pub mul_float : F → F → F
  pub div_float : F → F → F
  -- `std::round`, `std::abs` and `std::log10`
  pub round : F → F
  pub abs : F → F
  pub log10 : F → F
  -- `static_cast<float>(i)`, and the casts to `int32_t` and `int64_t`
  pub of_int : ℤ → F
  pub to_int32 : F → ℤ
  pub to_int64 : F → ℤ
