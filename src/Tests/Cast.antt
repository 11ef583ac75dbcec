-- ===== src/Tests/Cast.antt =====
-- Conversions to a declared numeric(precision, scale).
use my_simple_db.Prelude.{◌≡◌, refl, arith}
use my_simple_db.Prelude.Int.{pos, negsuc, ◌/ℤ◌, ◌+ℤ◌}
use my_simple_db.Storage.Cast.Coerce.{lower_scale, lower_scale_lem, lower_scale-small_negative}
use my_simple_db.Storage.Cast.Convert.{pow10}

-- 1.25 at scale 1 is 1.3
lower_scale_example : lower_scale (pos 125) 1 ≡ pos 13
lower_scale_example = lower_scale_lem (pos 125) 1 (omega arith) (λ h. cc)

-- -0.6 at scale 0 is 1
lower_scale-small_negative_example : lower_scale (negsuc 5) 1 ≡ pos 1
lower_scale-small_negative_example =
    lower_scale-small_negative 5 1 (omega arith) (omega arith) (omega arith)

lower_negative_run : lower_scale (negsuc 124) 1 ≡ negsuc 12
unfolding lower_scale ◌/ℤ◌ ◌+ℤ◌ pow10
lower_negative_run = refl
