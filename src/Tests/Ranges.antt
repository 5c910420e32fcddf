-- ===== src/Tests/Ranges.antt =====
-- Tests of the ranges.
use clash_for_android.Prelude.{◌≡◌, refl, List, [], ◌∷◌, arith, All, some, codes}
use mathlib.Core.List.Permᴰ
use clash_for_android.Ranges.{Range, check, merge}
use clash_for_android.Ranges.Merge.{Valid, Sorted}
use clash_for_android.Ranges.Parse.{new_unsigned_ranges}
use clash_for_android.Ranges.Parse.Valid.{check-merge_parsed}

abbrev low : Range
low = record { start = 80; end = 90 }

abbrev next : Range
next = record { start = 91; end = 95 }

abbrev far : Range
far = record { start = 443; end = 443 }

abbrev ports : List Range
ports = low ∷ next ∷ far ∷ []

-- The list is sorted already.
abbrev keep_order : List Range → List Range
keep_order rs = rs

ports-Sorted : Sorted ports
ports-Sorted = ((omega arith, (omega arith, tt)), ((omega arith, tt), (tt, tt)))

ports-Valid : All (Valid 16) ports
ports-Valid =
    ((omega arith, omega arith), ((omega arith, omega arith), ((omega arith, omega arith), tt)))

ports_parsed : new_unsigned_ranges 16 (codes " 80-90,[91-95]/443 ") ≡ some ports
unfolding new_unsigned_ranges
ports_parsed = refl

-- The conversion to sixteen bits drops the high ones: 65616 is 80.
high_port : new_unsigned_ranges 16 (codes "65616") ≡ some (record { start = 80; end = 80 } ∷ [])
unfolding new_unsigned_ranges
high_port = refl

merged_ports : merge 16 keep_order ports ≡ record { start = 80; end = 95 } ∷ far ∷ []
unfolding merge
merged_ports = refl

check-merge_parsed_example :
    All (Valid 16) ports × (check (merge 16 keep_order ports) 92 ≡ check ports 92)
check-merge_parsed_example =
    check-merge_parsed 16 (codes " 80-90,[91-95]/443 ") ports keep_order 92 ports_parsed
      ∣ Permᴰ.refl ports ∣₁ ports-Sorted
