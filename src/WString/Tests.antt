-- ===== src/WString/Tests.antt =====
-- Concrete runs of the buffers, and their theorems at concrete inputs.
use go_winio.Base.{◌≡◌, refl, arith, [], ◌∷◌}
use go_winio.WString.{WideString, cap, empty, grown, copied, resize_to}
use go_winio.WString.Resize.{Resized, resize_to-Resized}

abbrev three_units : WideString
three_units = record { b = 7 ∷ 8 ∷ 9 ∷ [] }

least_capacity : (resize_to three_units 4).1 ≡ 310
unfolding resize_to grown copied cap empty
least_capacity = refl

resize_to-Resized_example : Resized three_units 4 (resize_to three_units 4)
resize_to-Resized_example = resize_to-Resized three_units 4 (omega arith)
