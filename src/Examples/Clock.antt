-- ===== src/Examples/Clock.antt =====
-- Times, at concrete values.
use collision_avoidance.Base.{◌≡◌, refl, ◌↔◌, inl, inr, arith}
use collision_avoidance.Base.Int.{pos, negsuc, ◌+ℤ◌}
use collision_avoidance.Time.{Timespec, ts_cmp, ts_norm, ts_add, split_high, split_low, borrow}
use collision_avoidance.Time.Norm.{total, IsNormal, ts_norm_lem, ts_add_lem}
use collision_avoidance.Time.Order.{◌<ℤ◌, ts_cmp_lem}
use collision_avoidance.Time.Bounds.{AreLong, ts_norm-AreLong}

-- 2 s less 2.5 s.
abbrev mixed : Timespec
mixed = record { sec = pos 2; nsec = negsuc 2_499_999_999 }

abbrev early : Timespec
early = record { sec = pos 1; nsec = pos 999_999_999 }

abbrev late : Timespec
late = record { sec = pos 2; nsec = pos 5 }

-- 1 s and 1.5 s.
abbrev crowded : Timespec
crowded = record { sec = pos 1; nsec = pos 1_500_000_000 }

early-IsNormal : IsNormal early
early-IsNormal = record { small = omega arith; after_zero = inr refl; before_zero = inl refl }

late-IsNormal : IsNormal late
late-IsNormal = record { small = omega arith; after_zero = inr refl; before_zero = inl refl }

ts_norm_lem_example : (total (ts_norm mixed) ≡ total mixed) × IsNormal (ts_norm mixed)
ts_norm_lem_example = ts_norm_lem mixed

ts_add_lem_example :
    (total (ts_add mixed early) ≡ total mixed +ℤ total early) × IsNormal (ts_add mixed early)
ts_add_lem_example = ts_add_lem mixed early

ts_cmp_lem_example :
    ((ts_cmp late early ≡ pos 1) ↔ (total early <ℤ total late))
    × ((ts_cmp late early ≡ negsuc 0) ↔ (total late <ℤ total early))
    × ((ts_cmp late early ≡ pos 0) ↔ (late ≡ early))
ts_cmp_lem_example = ts_cmp_lem late early late-IsNormal early-IsNormal

ts_norm-AreLong_example :
    AreLong (split_high mixed)
    × AreLong (split_low (split_high mixed))
    × AreLong (borrow (split_low (split_high mixed)))
    × AreLong (ts_norm mixed)
ts_norm-AreLong_example = ts_norm-AreLong mixed (omega arith) (omega arith)
