-- ===== src/DefaultVehicleHal/Versions/First.antt =====
-- The first half of the entries of `VersionForVehicleProperty`, in their order.
use vhal_core.Prelude.{ℕ, [], ◌∷◌}
use vhal_core.Prelude.Dict.{Dict}

unfoldable pub first_versions : Dict ℕ ℕ
first_versions =
    (0x11100100, 1)
    ∷ (0x11100101, 1)
    ∷ (0x11100102, 1)
    ∷ (0x11400103, 1)
    ∷ (0x11600104, 1)
    ∷ (0x11410105, 1)
    ∷ (0x11600106, 1)
    ∷ (0x11410107, 1)
    ∷ (0x11400108, 1)
    ∷ (0x11400109, 1)
    ∷ (0x1540010a, 1)
    ∷ (0x1141010b, 1)
    ∷ (0x1141010c, 1)
    ∷ (0x1110010d, 4)
    ∷ (0x1141010e, 4)
    ∷ (0x11600204, 1)
    ∷ (0x11600207, 1)
    ∷ (0x11600208, 1)
    ∷ (0x11600209, 1)
    ∷ (0x11600210, 1)
    ∷ (0x11600211, 4)
    ∷ (0x11600212, 4)
    ∷ (0x11600301, 1)
    ∷ (0x11400303, 1)
    ∷ (0x11600304, 1)
    ∷ (0x11600305, 1)
    ∷ (0x11510306, 1)
    ∷ (0x11600307, 1)
    ∷ (0x11200308, 1)
    ∷ (0x11600309, 1)
    ∷ (0x1160030d, 2)
    ∷ (0x1120030a, 1)
    ∷ (0x1120030b, 1)
    ∷ (0x1160030c, 1)
    ∷ (0x11600308, 1)
    ∷ (0x1160030e, 3)
    ∷ (0x17600309, 1)
    ∷ (0x1760030a, 1)
    ∷ (0x1160030f, 4)
    ∷ (0x11600310, 4)
    ∷ (0x17600311, 4)
    ∷ (0x11200312, 4)
    ∷ (0x17400313, 4)
    ∷ (0x11200320, 2)
    ∷ (0x11400330, 3)
    ∷ (0x11200340, 4)
    ∷ (0x11400400, 1)
    ∷ (0x11400401, 1)
    ∷ (0x11200402, 1)
    ∷ (0x11200403, 1)
    ∷ (0x1140040c, 2)
    ∷ (0x11200405, 1)
    ∷ (0x11200407, 1)
    ∷ (0x11400408, 1)
    ∷ (0x11400409, 1)
    ∷ (0x1120040a, 1)
    ∷ (0x1120040b, 1)
    ∷ (0x1140040d, 2)
    ∷ (0x1120040e, 3)
    ∷ (0x1140040f, 3)
    ∷ (0x11400410, 4)
    ∷ (0x11400411, 4)
    ∷ (0x15400500, 1)
    ∷ (0x15400501, 1)
    ∷ (0x15600502, 1)
    ∷ (0x15600503, 1)
    ∷ (0x13200504, 1)
    ∷ (0x15200505, 1)
    ∷ (0x15200506, 1)
    ∷ (0x15200507, 1)
    ∷ (0x15200508, 1)
    ∷ (0x15200509, 1)
    ∷ (0x1520050a, 1)
    ∷ (0x1540050b, 1)
    ∷ (0x1440050c, 1)
    ∷ (0x1140050d, 1)
    ∷ (0x1140050e, 1)
    ∷ (0x1540050f, 1)
    ∷ (0x15200510, 1)
    ∷ (0x15410511, 1)
    ∷ (0x15200512, 1)
    ∷ (0x15400513, 1)
    ∷ (0x13200514, 1)
    ∷ (0x11610515, 1)
    ∷ (0x11400600, 1)
    ∷ (0x11400601, 1)
    ∷ (0x11400602, 1)
    ∷ (0x11400603, 1)
    ∷ (0x11200604, 1)
    ∷ (0x11400605, 1)
    ∷ (0x11500608, 1)
    ∷ (0x11500606, 1)
    ∷ (0x11700607, 1)
    ∷ (0x11600703, 1)
    ∷ (0x11410a00, 1)
    ∷ (0x11410a01, 1)
    ∷ (0x11400a02, 1)
    ∷ (0x11400a03, 1)
    ∷ (0x11410a04, 2)
    ∷ (0x11200a05, 3)
    ∷ (0x15200a06, 3)
    ∷ (0x11410a10, 1)
    ∷ (0x15e00a11, 2)
    ∷ (0x15e00a12, 2)
    ∷ (0x11410a20, 1)
    ∷ (0x11410a30, 1)
    ∷ (0x16400b00, 1)
    ∷ (0x16400b01, 1)
    ∷ (0x16200b02, 1)
    ∷ (0x16200b03, 2)
    ∷ (0x14400b40, 1)
    ∷ (0x14400b41, 1)
    ∷ (0x14400b42, 1)
    ∷ (0x14400b43, 1)
    ∷ (0x11200b44, 1)
    ∷ (0x11200b45, 1)
    ∷ (0x14200b46, 2)
    ∷ (0x14200b47, 2)
    ∷ (0x15400b80, 1)
    ∷ (0x15400b81, 1)
    ∷ (0x15200b82, 1)
    ∷ (0x15400b83, 1)
    ∷ (0x15400b84, 1)
    ∷ (0x15400b85, 1)
    ∷ (0x15400b86, 1)
    ∷ (0x15400b87, 1)
    ∷ (0x15400b88, 1)
    ∷ (0x15400b89, 1)
    ∷ (0x15400b8a, 1)
    ∷ (0x15400b8b, 1)
    ∷ (0x15400b8c, 1)
    ∷ (0x15400b8d, 1)
    ∷ (0x15400b8e, 1)
    ∷ (0x15400b8f, 1)
    ∷ (0x15400b90, 1)
    ∷ (0x15400b91, 1)
    ∷ (0x15400b92, 1)
    ∷ (0x15400b93, 1)
    ∷ (0x15400b94, 1)
    ∷ (0x11400b95, 1)
    ∷ []
