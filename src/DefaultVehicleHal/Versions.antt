-- ===== src/DefaultVehicleHal/Versions.antt =====
-- packages/vhal-types/aidl/generated_lib/4/cpp/VersionForVehicleProperty.h: from which version of the
-- interface on there is a property, by the numbers of VehicleProperty.aidl.
mod First
mod Second
use vhal_core.Prelude.{ℕ, Option, none, some, lookup, ℕ_discrete}
use vhal_core.DefaultVehicleHal.Versions.First.{first_versions}
use vhal_core.DefaultVehicleHal.Versions.Second.{second_versions}

-- `VersionForVehicleProperty.find(property)`
unfoldable pub version_for_vehicle_property : ℕ → Option ℕ
unfolding first_versions second_versions
version_for_vehicle_property prop = elim (lookup ℕ_discrete prop first_versions) [
  | some version ↦ some version
  | none ↦ lookup ℕ_discrete prop second_versions
]
