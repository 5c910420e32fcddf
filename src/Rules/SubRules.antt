-- ===== src/Rules/SubRules.antt =====
-- config/config.go: the check of the sub-rules for missing names and circular references.
pub mod Unvisited
pub mod Ends
pub mod Circle
use clash_for_android.Prelude.{
  ℕ, zero, suc, Bool, true, false, ◌||◌, String, str_eq, List, [], ◌∷◌, ◌++◌, Option, none, some,
  lookup, length, if◌then◌else◌,
}
use clash_for_android.Rules.Logic.{Rule, SubRules, rules_of, sub_rule_name}

-- Nothing wrong; a name that is not there; the names of a circle; or more names than the depth allows.
pub data Verdict : Type 0 where
  accepted : Verdict
  not_found : String → Verdict
  circular : List String → Verdict
  too_deep : Verdict

abbrev pub is_in_array : String → List String → Bool
is_in_array v [] = false
is_in_array v (c ∷ cs) = str_eq v c || is_in_array v cs

-- An early return with an error, before the rest is checked.
abbrev pub and_then : Verdict → Verdict → Verdict
and_then accepted v = v
and_then (not_found name) v = not_found name
and_then (circular names) v = circular names
and_then too_deep v = too_deep

abbrev pub verify_found :
    {A : Type 0} → (String → List String → Verdict) → List String → String → Option A → Verdict
verify_found check arr name none = not_found name
verify_found check arr name (some rules) =
    if is_in_array name arr then circular (arr ++ (name ∷ [])) else check name arr

-- One rule: nothing to check, unless it names other rules.
abbrev pub verify_reference :
    {M : Type 0}
    → (String → List String → Verdict)
    → SubRules M
    → List String
    → Option String
    → Verdict
verify_reference check subs arr none = accepted
verify_reference check subs arr (some name) = verify_found check arr name (lookup name subs)

abbrev pub verify_rules :
    {M : Type 0}
    → (String → List String → Verdict)
    → SubRules M
    → List String
    → List (Rule M)
    → Verdict
verify_rules check subs arr [] = accepted
verify_rules check subs arr (r ∷ rs) =
    and_then (verify_reference check subs arr (sub_rule_name r)) (verify_rules check subs arr rs)

-- `verifySubRuleCircularReferences`, up to a depth of names.
unfoldable pub verify_circular : {M : Type 0} → ℕ → SubRules M → String → List String → Verdict
verify_circular zero subs name arr = too_deep
verify_circular (suc depth) subs name arr =
    verify_rules (verify_circular depth subs) subs (arr ++ (name ∷ [])) (rules_of name subs)

abbrev pub verify_names : {M : Type 0} → ℕ → SubRules M → SubRules M → Verdict
verify_names depth subs [] = accepted
verify_names depth subs (entry ∷ rest) =
    and_then (verify_circular depth subs entry.0 []) (verify_names depth subs rest)

-- `verifySubRule`
unfoldable pub verify_sub_rule : {M : Type 0} → SubRules M → Verdict
verify_sub_rule subs = verify_names (length subs) subs subs
