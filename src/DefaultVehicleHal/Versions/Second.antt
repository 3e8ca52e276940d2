-- ===== src/DefaultVehicleHal/Versions/Second.antt =====
-- The second half of the entries of `VersionForVehicleProperty`, in their order.
use vhal_core.Prelude.{ℕ, [], ◌∷◌}
use vhal_core.Prelude.Dict.{Dict}

unfoldable pub second_versions : Dict ℕ ℕ
second_versions =
    (0x15400ba4, 2)
    ∷ (0x15400b96, 1)
    ∷ (0x15400b97, 1)
    ∷ (0x15400b98, 1)
    ∷ (0x15400b99, 1)
    ∷ (0x15400b9a, 1)
    ∷ (0x15400b9b, 2)
    ∷ (0x15400b9c, 2)
    ∷ (0x15200b9d, 2)
    ∷ (0x15200b9e, 2)
    ∷ (0x15400ba5, 3)
    ∷ (0x15400b9f, 2)
    ∷ (0x15400ba0, 2)
    ∷ (0x15400ba1, 2)
    ∷ (0x15400ba2, 2)
    ∷ (0x15400ba3, 2)
    ∷ (0x15200ba6, 3)
    ∷ (0x15400bb0, 1)
    ∷ (0x13400bc0, 1)
    ∷ (0x13400bc1, 1)
    ∷ (0x13200bc4, 1)
    ∷ (0x13400bc5, 2)
    ∷ (0x13400bc6, 2)
    ∷ (0x13400bc7, 2)
    ∷ (0x11400be0, 2)
    ∷ (0x11400be1, 2)
    ∷ (0x11400be2, 2)
    ∷ (0x11400be3, 2)
    ∷ (0x11200be4, 2)
    ∷ (0x11200be5, 2)
    ∷ (0x11200be6, 2)
    ∷ (0x15400bf0, 2)
    ∷ (0x15200bf1, 2)
    ∷ (0x11e00c00, 1)
    ∷ (0x11400c10, 2)
    ∷ (0x18410c20, 3)
    ∷ (0x18610c21, 3)
    ∷ (0x18410c22, 3)
    ∷ (0x18410c23, 3)
    ∷ (0x18410c24, 3)
    ∷ (0x18410c25, 3)
    ∷ (0x11e00d00, 1)
    ∷ (0x11e00d01, 1)
    ∷ (0x11e00d02, 1)
    ∷ (0x11e00d03, 1)
    ∷ (0x11400e00, 1)
    ∷ (0x11400e01, 1)
    ∷ (0x11400e02, 1)
    ∷ (0x11400e03, 1)
    ∷ (0x11400e10, 1)
    ∷ (0x11400e11, 1)
    ∷ (0x11400e12, 1)
    ∷ (0x11400e13, 1)
    ∷ (0x11400f01, 1)
    ∷ (0x11400f02, 1)
    ∷ (0x15400f03, 1)
    ∷ (0x15400f04, 1)
    ∷ (0x11400f0c, 2)
    ∷ (0x11400f0d, 2)
    ∷ (0x11200f05, 1)
    ∷ (0x11100f06, 1)
    ∷ (0x11e00f07, 1)
    ∷ (0x11e00f08, 1)
    ∷ (0x11e00f09, 1)
    ∷ (0x11e00f0a, 1)
    ∷ (0x11e00f0b, 1)
    ∷ (0x11410f10, 1)
    ∷ (0x11100f21, 1)
    ∷ (0x11100f22, 1)
    ∷ (0x11100f23, 1)
    ∷ (0x11500f31, 1)
    ∷ (0x11e00f32, 1)
    ∷ (0x11500f33, 1)
    ∷ (0x11400f34, 1)
    ∷ (0x11410f35, 1)
    ∷ (0x11e00f36, 1)
    ∷ (0x11400f37, 1)
    ∷ (0x11700f38, 1)
    ∷ (0x11400f39, 1)
    ∷ (0x11400f3a, 1)
    ∷ (0x11400f3b, 1)
    ∷ (0x11400f3c, 1)
    ∷ (0x11400f3d, 1)
    ∷ (0x11400f3e, 1)
    ∷ (0x11600f3f, 1)
    ∷ (0x11600f40, 1)
    ∷ (0x11400f41, 1)
    ∷ (0x11200f42, 1)
    ∷ (0x11400f43, 1)
    ∷ (0x11400f44, 1)
    ∷ (0x11400f45, 1)
    ∷ (0x11400f46, 1)
    ∷ (0x11400f47, 2)
    ∷ (0x11410f48, 2)
    ∷ (0x11400f49, 2)
    ∷ (0x11200f4a, 2)
    ∷ (0x11e00f4b, 3)
    ∷ (0x11400f4c, 3)
    ∷ (0x11400f4f, 4)
    ∷ (0x11410f4d, 3)
    ∷ (0x11410f4e, 3)
    ∷ (0x11201000, 2)
    ∷ (0x11401001, 2)
    ∷ (0x11201002, 2)
    ∷ (0x11401003, 2)
    ∷ (0x11201004, 2)
    ∷ (0x14401005, 2)
    ∷ (0x11201006, 2)
    ∷ (0x11401007, 2)
    ∷ (0x11201008, 2)
    ∷ (0x11401009, 2)
    ∷ (0x1120100a, 2)
    ∷ (0x1140100b, 2)
    ∷ (0x1140100c, 2)
    ∷ (0x1120100d, 2)
    ∷ (0x1140100e, 2)
    ∷ (0x1120100f, 2)
    ∷ (0x11401010, 2)
    ∷ (0x11401011, 2)
    ∷ (0x11401012, 2)
    ∷ (0x11601013, 2)
    ∷ (0x11401014, 2)
    ∷ (0x11401015, 2)
    ∷ (0x11201016, 2)
    ∷ (0x11401017, 2)
    ∷ (0x11401018, 2)
    ∷ (0x11201019, 3)
    ∷ (0x1140101a, 3)
    ∷ (0x1120101b, 3)
    ∷ (0x1140101c, 3)
    ∷ (0x1120101d, 3)
    ∷ (0x1140101e, 3)
    ∷ (0x1120101f, 3)
    ∷ (0x11401020, 3)
    ∷ (0x11201021, 3)
    ∷ (0x11401022, 3)
    ∷ (0x11201023, 3)
    ∷ (0x11401024, 3)
    ∷ (0x11201025, 3)
    ∷ (0x11401026, 3)
    ∷ []
