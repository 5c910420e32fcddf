-- ===== src/Rules/SubRules/Circle.antt =====
-- What the check of the sub-rules refuses, and that it decides (config/config.go).

use clash_for_android.Prelude.{
  ℕ, zero, suc, ◌≡◌, ◌≢◌, ◌⊎◌, refl, true, String, List, [], ◌∷◌, ◌++◌, Option, none, some, lookup,
  length, Bool-cases, Option-cases, inl, inr,
}
use clash_for_android.Rules.Logic.{Rule, SubRules, rules_of, sub_rule_name, match_sub_rules}
use clash_for_android.Rules.SubRules.{
  Verdict, accepted, not_found, circular, too_deep, is_in_array, and_then, verify_reference,
  verify_rules, verify_circular, verify_names, verify_sub_rule,
}
use clash_for_android.Rules.SubRules.Ends.{Ended, verify_sub_rule-enough, verify_sub_rule-Ended}

-- Some rule of the list jumps to the name.
abbrev pub JumpsTo : {M : Type 0} → String → List (Rule M) → Type 0
JumpsTo name [] = ⊥
JumpsTo name (r ∷ rs) = (sub_rule_name r ≡ some name) ⊎ JumpsTo name rs

module _ {M : Type 0} (subs : SubRules M) where
  -- The names are a way along the references, which ends at the last one.
  pub data IsWay : List String → String → Type 0 where
    from : (name : String) → IsWay (name ∷ []) name
    along :
        (names : List String) (name other : String)
        → IsWay names name
        → JumpsTo other (rules_of name subs)
        → IsWay (names ++ (other ∷ [])) other

-- What a refusal says is so.
abbrev pub Justified : {M : Type 0} → SubRules M → Verdict → Type 0
Justified subs accepted = Unit
Justified subs (not_found name) =
    (owner : String) × JumpsTo name (rules_of owner subs) × (lookup name subs ≡ none)
Justified subs (circular names) =
    (way : List String) × (last name : String) × IsWay subs way last
    × JumpsTo name (rules_of last subs)
    × (is_in_array name way ≡ true)
    × (names ≡ way ++ (name ∷ []))
Justified subs too_deep = Unit

module _ {M : Type 0} (subs : SubRules M) where
  and_then-Justified :
      (v w : Verdict) → Justified subs v → Justified subs w → Justified subs (and_then v w)
  and_then-Justified accepted w h k = k
  and_then-Justified (not_found name) w h k = h
  and_then-Justified (circular names) w h k = h
  and_then-Justified too_deep w h k = h

  module _ (check : String → List String → Verdict) (arr : List String) (last : String)
      (way : IsWay subs arr last)
      (checked : (name : String)
        → JumpsTo name (rules_of last subs)
        → Justified subs (check name arr)) where
    verify_reference-Justified :
        (o : Option String)
        → ((name : String) → o ≡ some name → JumpsTo name (rules_of last subs))
        → Justified subs (verify_reference check subs arr o)
    verify_reference-Justified none h = tt
    verify_reference-Justified (some name) h = elim (Option-cases (lookup name subs)) [
      | inl missing ↦ rw missing (last, h name refl, missing)
      | inr (rs, there) ↦ elim (Bool-cases (is_in_array name arr)) [
        | inl again ↦ rw (there, again) (arr, last, name, way, h name refl, again, refl)
        | inr fresh ↦ rw (there, fresh) (checked name (h name refl))
      ]
    ]

    verify_rules-Justified :
        (rs : List (Rule M))
        → ((name : String) → JumpsTo name rs → JumpsTo name (rules_of last subs))
        → Justified subs (verify_rules check subs arr rs)
    verify_rules-Justified [] h = tt
    verify_rules-Justified (r ∷ rs) h =
        and_then-Justified (verify_reference check subs arr (sub_rule_name r))
          (verify_rules check subs arr rs)
          (verify_reference-Justified (sub_rule_name r) (λ name e. h name (inl e)))
          (verify_rules-Justified rs (λ name j. h name (inr j)))

  verify_circular-Justified :
      (depth : ℕ) (name : String) (arr : List String)
      → IsWay subs (arr ++ (name ∷ [])) name
      → Justified subs (verify_circular depth subs name arr)
  unfolding verify_circular
  verify_circular-Justified zero name arr way = tt
  verify_circular-Justified (suc depth) name arr way =
      let path = arr ++ (name ∷ []) in
      verify_rules-Justified (verify_circular depth subs) path name way
        (λ other j. verify_circular-Justified depth other path (along path name other way j))
        (rules_of name subs) (λ other j. j)

  verify_names-Justified :
      (depth : ℕ) (entries : SubRules M) → Justified subs (verify_names depth subs entries)
  verify_names-Justified depth [] = tt
  verify_names-Justified depth (entry ∷ rest) =
      and_then-Justified (verify_circular depth subs entry.0 []) (verify_names depth subs rest)
        (verify_circular-Justified depth entry.0 [] (from entry.0))
        (verify_names-Justified depth rest)

-- What a verdict says of matching the rules of a name.
abbrev pub Decides : {M : Type 0} → SubRules M → String → M → Verdict → Type 0
Decides subs name m accepted = Ended (match_sub_rules (length subs) subs name m)
Decides subs name m (not_found other) = Justified subs (not_found other)
Decides subs name m (circular names) = Justified subs (circular names)
Decides subs name m too_deep = ⊥

decided :
    {M : Type 0} (subs : SubRules M) (name : String) (m : M) (v : Verdict)
    → v ≢ too_deep
    → Justified subs v
    → (v ≡ accepted → Ended (match_sub_rules (length subs) subs name m))
    → Decides subs name m v
decided subs name m accepted h j f = f refl
decided subs name m (not_found other) h j f = j
decided subs name m (circular names) h j f = j
decided subs name m too_deep h j f = h refl

-- The check of the sub-rules ends within as many nested calls as there are names, and it decides:
-- if it accepts, matching the rules of a name that is there ends at any metadata, within as many nested calls
-- as there are names; if it refuses, some rule jumps to a name that is not there, or the names of
-- the error are a way along the jumps that comes back to a name it has passed.
pub verify_sub_rule_lem :
    {M : Type 0} (subs : SubRules M) (name : String) (rs : List (Rule M)) (m : M)
    → lookup name subs ≡ some rs
    → Decides subs name m (verify_sub_rule subs)
unfolding verify_sub_rule
verify_sub_rule_lem subs name rs m there =
    decided subs name m (verify_sub_rule subs) (verify_sub_rule-enough subs)
      (verify_names-Justified subs (length subs) subs)
      (λ e. verify_sub_rule-Ended subs name rs e there m)
