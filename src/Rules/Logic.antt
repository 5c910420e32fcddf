-- ===== src/Rules/Logic.antt =====
-- rules/logic/logic.go: matching a rule that is built of others, and the sub-rules that a rule jumps to.
use clash_for_android.Prelude.{
  ℕ, zero, suc, Bool, true, false, String, List, [], ◌∷◌, Option, none, some, Dict, lookup,
  if◌then◌else◌,
}

-- Whether a rule matches, and its adapter.
abbrev pub Answer : Type 0
Answer = Bool × String

abbrev pub no_match : Answer
no_match = (false, "")

-- A rule that is no SubRules rule: one of another package with its Match, which may change the
-- metadata, or a NOT, an OR or an AND with its adapter. `payloadToRule` refuses a SUB-RULE inside.
mutual
  pub data Condition (M : Type 0) : Type 0 where
    base : (M → Answer × M) → Condition M
    negation : String → Condition M → Condition M
    any_of all_of : String → Conditions M → Condition M

  pub data Conditions (M : Type 0) : Type 0 where
    none_left : Conditions M
    with_next : Condition M → Conditions M → Conditions M

-- A SubRules rule has one condition, and the name of the rules that it jumps to as its adapter.
pub data Rule (M : Type 0) : Type 0 where
  plain : Condition M → Rule M
  sub_rule : Condition M → String → Rule M

abbrev pub SubRules : Type 0 → Type 0
SubRules M = Dict (List (Rule M))

-- `subRules[name]`; a missing name has no rules.
abbrev pub or_empty : {A : Type 0} → Option (List A) → List A
or_empty none = []
or_empty (some rs) = rs

abbrev pub rules_of : {M : Type 0} → String → SubRules M → List (Rule M)
rules_of name subs = or_empty (lookup name subs)

-- `Adapter()` of a rule whose RuleType is SubRules.
abbrev pub sub_rule_name : {M : Type 0} → Rule M → Option String
sub_rule_name (plain c) = none
sub_rule_name (sub_rule c name) = some name

abbrev pub negated : {M : Type 0} → String → Answer × M → Answer × M
negated adapter (answer, m) = (if answer.0 then no_match else (true, adapter), m)

-- `Match` of the types NOT, OR and AND.
unfoldable mutual
  pub match_condition : {M : Type 0} → Condition M → M → Answer × M
  match_condition (base f) m = f m
  match_condition (negation adapter c) m = negated adapter (match_condition c m)
  match_condition (any_of adapter cs) m = match_any adapter cs m
  match_condition (all_of adapter cs) m = match_all adapter cs m

  pub match_any : {M : Type 0} → String → Conditions M → M → Answer × M
  match_any adapter none_left m = (no_match, m)
  match_any adapter (with_next c cs) m =
      let (answer, after) = match_condition c m in
      let rest = match_any adapter cs after in if answer.0 then ((true, adapter), after) else rest

  pub match_all : {M : Type 0} → String → Conditions M → M → Answer × M
  match_all adapter none_left m = ((true, adapter), m)
  match_all adapter (with_next c cs) m =
      let (answer, after) = match_condition c m in
      let rest = match_all adapter cs after in if answer.0 then rest else ((false, adapter), after)

-- A step that may need more depth than there is (`none`), with the metadata passed on.
abbrev pub Matching : Type 0 → Type 0
Matching M = M → Option (Answer × M)

-- `Match` of any rule; `call` is `matchSubRules` on the name of other rules.
abbrev pub jump : {M : Type 0} → (String → Matching M) → String → Answer × M → Option (Answer × M)
jump call name (answer, m) = if answer.0 then call name m else some (no_match, m)

abbrev pub match_one : {M : Type 0} → (String → Matching M) → Rule M → Matching M
match_one call (plain c) m = some (match_condition c m)
match_one call (sub_rule c name) m = jump call name (match_condition c m)

-- What a rule that matches makes of the loop: a SubRules rule is asked again for its rules' answer.
abbrev pub settled : {M : Type 0} → (String → Matching M) → Option String → Answer → Matching M
settled call none answer m = some (answer, m)
settled call (some name) answer m = call name m

abbrev pub next_rule :
    {M : Type 0}
    → (String → Matching M)
    → Option String
    → Matching M
    → Option (Answer × M)
    → Option (Answer × M)
next_rule call name rest none = none
next_rule call name rest (some (answer, m)) =
    if answer.0 then settled call name answer m else rest m

abbrev pub match_rules : {M : Type 0} → (String → Matching M) → List (Rule M) → Matching M
match_rules call [] m = some (no_match, m)
match_rules call (r ∷ rs) m =
    next_rule call (sub_rule_name r) (match_rules call rs) (match_one call r m)

-- `matchSubRules`, up to a depth of jumps.
unfoldable pub match_sub_rules : {M : Type 0} → ℕ → SubRules M → String → Matching M
match_sub_rules zero subs name m = none
match_sub_rules (suc depth) subs name m =
    match_rules (match_sub_rules depth subs) (rules_of name subs) m
