-- ===== src/Ranges.antt =====
-- common/utils/range.go and ranges.go: sets of numbers as lists of ranges, which say what ports,
-- status codes and users are accepted.
pub mod Parse
pub mod Merge
use clash_for_android.Prelude.{
  ℕ, ◌+◌, ◌%◌, ◌^◌, Bool, true, false, ◌&&◌, List, [], ◌∷◌, ltb, leb, if◌then◌else◌, any,
}

pub record Range : Type 0 where
  pub start : ℕ
  pub end : ℕ

-- `NewRange` puts the ends in order.
unfoldable pub new_range : ℕ → ℕ → Range
new_range start end =
    if ltb end start
    then record { start = end; end = start }
    else record { start = start; end = end }

unfoldable pub contains : Range → ℕ → Bool
contains r t = leb r.start t && leb t r.end

unfoldable pub left_contains : Range → ℕ → Bool
left_contains r t = leb r.start t && ltb t r.end

unfoldable pub right_contains : Range → ℕ → Bool
right_contains r t = ltb r.start t && leb t r.end

-- `Check`: no ranges accept everything.
unfoldable pub check : List Range → ℕ → Bool
unfolding contains
check [] status = true
check (r ∷ rs) status = any (λ s. contains s status) (r ∷ rs)

-- The loop of `Merge`: `last` is the merged range at the end, and the numbers have `w` bits. The
-- merged ranges share their array with the sorted ones, but a range is read before its place can be
-- written.
unfoldable pub merge_into : ℕ → Range → List Range → List Range
merge_into w last [] = last ∷ []
merge_into w last (r ∷ rs) =
    let next = (last.end + 1) % 2 ^ w in
    let apart = ltb last.end next && ltb next r.start in
    let last' =
      if apart then r else if ltb last.end r.end then record last { end = r.end } else last in
    let rest = merge_into w last' rs in if apart then last ∷ rest else rest

abbrev pub merge_sorted : ℕ → List Range → List Range
merge_sorted w [] = []
merge_sorted w (r ∷ rs) = merge_into w r rs

-- `Merge`; `sort` is what sort.Slice does with the ranges, by their starts.
unfoldable pub merge : ℕ → (List Range → List Range) → List Range → List Range
unfolding merge_into
merge w sort [] = []
merge w sort (r ∷ rs) = merge_sorted w (sort (r ∷ rs))
