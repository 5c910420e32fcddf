-- ===== src/Ranges/Parse.antt =====
-- The texts of common/utils/ranges.go, as lists of ASCII characters.
pub mod Valid
use mathlib.Core.List.{reverse}
use clash_for_android.Prelude.{
  ℕ, ◌+◌, ◌-◌, ◌*◌, ◌%◌, ◌^◌, Bool, true, false, ◌&&◌, ◌||◌, List, [], ◌∷◌, ltb, leb, ◌==◌,
  if◌then◌else◌, Bytes, Option, none, some, bytes_eq, length, map, split, trim, is_space,
}
use clash_for_android.Ranges.{Range, new_range}

-- The cutset "[ ]" is two brackets and a space.
abbrev pub is_bracket : ℕ → Bool
is_bracket c = c == b'[' || c == b' ' || c == b']'

abbrev pub is_digit : ℕ → Bool
is_digit c = leb b'0' c && leb c b'9'

-- The digits after a value; `none` at another character.
abbrev pub digits_value : ℕ → Bytes → Option ℕ
digits_value n [] = some n
digits_value n (c ∷ s) =
    let rest = digits_value (n * 10 + (c - b'0')) s in if is_digit c then rest else none

abbrev pub fits_u64 : Option ℕ → Option ℕ
fits_u64 none = none
fits_u64 (some n) = if ltb n (2 ^ 64) then some n else none

-- strconv.ParseUint(s, 10, 64)
unfoldable pub parse_uint : Bytes → Option ℕ
parse_uint [] = none
parse_uint (c ∷ s) = fits_u64 (digits_value 0 (c ∷ s))

abbrev pub converted : ℕ → Option ℕ → Option ℕ
converted w none = none
converted w (some n) = some (n % 2 ^ w)

-- `parseUnsigned` for a type of `w` bits: the conversion T(val) drops the high bits.
unfoldable pub parse_unsigned : ℕ → Bytes → Option ℕ
unfolding parse_uint
parse_unsigned w s = converted w (parse_uint s)

abbrev pub range_of : Option ℕ → Option ℕ → Option Range
range_of (some a) (some b) = some (new_range a b)
range_of _ _ = none

-- One term: a number, or two with a dash between.
unfoldable pub parse_term : ℕ → List Bytes → Option Range
unfolding new_range parse_unsigned trim
parse_term w [] = none
parse_term w (a ∷ []) = let n = parse_unsigned w (trim is_bracket a) in range_of n n
parse_term w (a ∷ b ∷ []) =
    range_of (parse_unsigned w (trim is_bracket a)) (parse_unsigned w (trim is_bracket b))
parse_term w (_ ∷ _ ∷ _ ∷ _) = none

abbrev pub add_term : Option Range → Option (List Range) → Option (List Range)
add_term (some r) (some rs) = some (r ∷ rs)
add_term _ _ = none

-- `newIntRangesFromList`: an empty term is skipped, and a bad one refuses the list.
unfoldable pub from_list : ℕ → List Bytes → Option (List Range)
unfolding parse_term split
from_list w [] = some []
from_list w ([] ∷ terms) = from_list w terms
from_list w ((c ∷ s) ∷ terms) = add_term (parse_term w (split b'-' (c ∷ s))) (from_list w terms)

abbrev pub comma_to_slash : ℕ → ℕ
comma_to_slash c = if c == b',' then b'/' else c

abbrev pub max_ranges : ℕ
max_ranges = 28

-- `NewUnsignedRanges`
unfoldable pub new_unsigned_ranges : ℕ → Bytes → Option (List Range)
unfolding from_list split trim
new_unsigned_ranges w expected =
    let s = trim is_space expected in
    let terms = split b'/' (map comma_to_slash s) in
    if bytes_eq s [] || bytes_eq s (b'*' ∷ [])
    then some []
    else if ltb max_ranges (length terms)
    then none
    else from_list w terms
