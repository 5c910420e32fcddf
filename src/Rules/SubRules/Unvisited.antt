-- ===== src/Rules/SubRules/Unvisited.antt =====
-- How many names a path of references has not visited.
use clash_for_android.Prelude.{
  ℕ, suc, ◌≤◌, ◌<◌, ◌≡◌, refl, false, ◌||◌, String, str_eq, str_eq_iff, List, [], ◌∷◌, ◌++◌, some,
  lookup, length, if◌then◌else◌, arith, Dict, Bool-cases, inl, inr, none-ne-some,
}
use clash_for_android.Rules.SubRules.{is_in_array}

abbrev pub unvisited : {V : Type 0} → List String → Dict V → ℕ
unvisited arr [] = 0
unvisited arr (entry ∷ rest) =
    let n = unvisited arr rest in if is_in_array entry.0 arr then n else suc n

pub is_in_array-append :
    (v n : String) (arr : List String)
    → is_in_array v (arr ++ (n ∷ [])) ≡ (is_in_array v arr || str_eq v n)
is_in_array-append v n [] = ground arith
is_in_array-append v n (c ∷ cs) = ground (arith, is_in_array-append v n cs)

unvisited-append_le :
    {V : Type 0} (n : String) (arr : List String) (dict : Dict V)
    → unvisited (arr ++ (n ∷ [])) dict ≤ unvisited arr dict
unvisited-append_le n arr [] = omega arith
unvisited-append_le n arr (entry ∷ rest) =
    ground (arith, is_in_array-append entry.0 n arr, unvisited-append_le n arr rest)

-- Visiting a name of the map that has not been visited leaves fewer.
pub unvisited-append_lt :
    {V : Type 0} (n : String) (arr : List String) (dict : Dict V) (v : V)
    → lookup n dict ≡ some v
    → is_in_array n arr ≡ false
    → unvisited (arr ++ (n ∷ [])) dict < unvisited arr dict
unvisited-append_lt n arr [] v e h = absurd (none-ne-some refl e)
unvisited-append_lt n arr (entry ∷ rest) v e h = elim (Bool-cases (str_eq entry.0 n)) [
  | inl here ↦ ground (
    arith,
    is_in_array-append entry.0 n arr,
    unvisited-append_le n arr rest,
    (str_eq_iff entry.0 n).0 here,
  )
  | inr elsewhere ↦ ground (
    arith,
    is_in_array-append entry.0 n arr,
    unvisited-append_lt n arr rest v (rw elsewhere at e) h,
  )
]

pub unvisited-empty : {V : Type 0} (dict : Dict V) → unvisited [] dict ≡ length dict
unvisited-empty [] = refl
unvisited-empty (entry ∷ rest) = omega (arith, unvisited-empty rest)
