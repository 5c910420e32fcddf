-- ===== src/Ranges/Parse/Valid.antt =====
-- What comes out of the parser of common/utils/ranges.go.
use clash_for_android.Prelude.{
  split, trim, is_space, ℕ, ◌%◌, ◌^◌, ◌<◌, ◌≡◌, refl, Bool, true, false, ◌||◌, List, [], ◌∷◌, ltb,
  if◌then◌else◌, Bytes, Option, none, some, arith, subst, All, bytes_eq, length, map,
}
use mathlib.Core.List.{Perm}
use mathlib.Core.Option.{some-injective}
use native.Mathlib.Nat.{mod-lt, one-le-pow}
use clash_for_android.Ranges.{Range, new_range, check, merge}
use clash_for_android.Ranges.Merge.{Valid, Sorted, check-merge}
use clash_for_android.Ranges.Parse.{
  parse_unsigned, parse_uint, range_of, parse_term, add_term, from_list, new_unsigned_ranges,
  converted, is_bracket, comma_to_slash, max_ranges,
}

new_range-Valid : (w a b : ℕ) → a < 2 ^ w → b < 2 ^ w → Valid w (new_range a b)
unfolding new_range
new_range-Valid w a b p q = ground arith

converted-lt : (w : ℕ) (o : Option ℕ) (n : ℕ) → converted w o ≡ some n → n < 2 ^ w
converted-lt w none n e = cc
converted-lt w (some m) n e =
    subst (λ k. k < 2 ^ w) (some-injective _ _ e) (mod-lt m (one-le-pow w 2 (omega arith)))

range_of-Valid :
    (w : ℕ) (a b : Option ℕ) (r : Range)
    → range_of (converted w a) (converted w b) ≡ some r
    → Valid w r
range_of-Valid w none b r e = cc
range_of-Valid w (some a) none r e = cc
range_of-Valid w (some a) (some b) r e = subst (Valid w) (some-injective _ _ e) (
    new_range-Valid w (a % 2 ^ w) (b % 2 ^ w) (mod-lt a (one-le-pow w 2 (omega arith)))
      (mod-lt b (one-le-pow w 2 (omega arith))))

parse_term-Valid :
    (w : ℕ) (parts : List Bytes) (r : Range) → parse_term w parts ≡ some r → Valid w r
unfolding parse_term parse_unsigned
parse_term-Valid w [] r e = cc
parse_term-Valid w (a ∷ []) r e = let n = parse_uint (trim is_bracket a) in range_of-Valid w n n r e
parse_term-Valid w (a ∷ b ∷ []) r e =
    range_of-Valid w (parse_uint (trim is_bracket a)) (parse_uint (trim is_bracket b)) r e
parse_term-Valid w (a ∷ b ∷ c ∷ rest) r e = cc

add_term-Valid :
    (w : ℕ) (o : Option Range) (p : Option (List Range)) (rs : List Range)
    → ((r : Range) → o ≡ some r → Valid w r)
    → ((ss : List Range) → p ≡ some ss → All (Valid w) ss)
    → add_term o p ≡ some rs
    → All (Valid w) rs
add_term-Valid w none p rs h k e = cc
add_term-Valid w (some r) none rs h k e = cc
add_term-Valid w (some r) (some ss) rs h k e =
    subst (All (Valid w)) (some-injective _ _ e) (h r refl, k ss refl)

from_list-Valid :
    (w : ℕ) (terms : List Bytes) (rs : List Range) → from_list w terms ≡ some rs → All (Valid w) rs
unfolding from_list
from_list-Valid w [] rs e = subst (All (Valid w)) (some-injective _ _ e) tt
from_list-Valid w ([] ∷ terms) rs e = from_list-Valid w terms rs e
from_list-Valid w ((c ∷ s) ∷ terms) rs e =
    add_term-Valid w (parse_term w (split b'-' (c ∷ s))) (from_list w terms) rs
      (parse_term-Valid w (split b'-' (c ∷ s))) (from_list-Valid w terms) e

chosen-Valid :
    (w : ℕ) (any_number too_many : Bool) (terms : List Bytes) (rs : List Range)
    → (if any_number then some [] else if too_many then none else from_list w terms) ≡ some rs
    → All (Valid w) rs
chosen-Valid w true too_many terms rs e = subst (All (Valid w)) (some-injective _ _ e) tt
chosen-Valid w false true terms rs e = cc
chosen-Valid w false false terms rs e = from_list-Valid w terms rs e

-- Each range that the parser gives has its ends in order and within the width, so that merging what
-- was parsed accepts exactly the same numbers.
pub check-merge_parsed :
    (w : ℕ) (text : Bytes) (rs : List Range) (sort : List Range → List Range) (x : ℕ)
    → new_unsigned_ranges w text ≡ some rs
    → Perm (sort rs) rs
    → Sorted (sort rs)
    → All (Valid w) rs × (check (merge w sort rs) x ≡ check rs x)
unfolding new_unsigned_ranges
check-merge_parsed w text rs sort x e p sorted =
    let s = trim is_space text in
    let terms = split b'/' (map comma_to_slash s) in
    let valid =
      chosen-Valid w (bytes_eq s [] || bytes_eq s (b'*' ∷ [])) (ltb max_ranges (length terms)) terms
        rs e in
    (valid, check-merge w sort rs x p sorted valid)
