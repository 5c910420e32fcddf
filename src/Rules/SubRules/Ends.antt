-- ===== src/Rules/SubRules/Ends.antt =====
-- Matching ends if the check of the sub-rules accepts them, and the check always ends
-- (config/config.go, rules/logic/logic.go).

use clash_for_android.Prelude.{
  ℕ, zero, suc, ◌≤◌, ◌≡◌, ◌≢◌, refl, false, String, str_eq, str_eq_iff, str_eq_refl, List, [], ◌∷◌,
  ◌++◌, Option, none, some, lookup, length, arith, All, Bool-cases, Option-cases, inl, inr,
  none-ne-some,
}
use clash_for_android.Rules.Logic.{
  Rule, plain, sub_rule, SubRules, rules_of, sub_rule_name, Answer, match_condition, Matching,
  match_one, settled, match_rules, match_sub_rules,
}
use clash_for_android.Rules.SubRules.{
  Verdict, accepted, not_found, circular, too_deep, is_in_array, and_then, verify_reference,
  verify_rules, verify_circular, verify_names, verify_sub_rule,
}
use clash_for_android.Rules.SubRules.Unvisited.{unvisited, unvisited-append_lt, unvisited-empty}

abbrev pub Ended : {A : Type 0} → Option A → Type 0
Ended {A = A} o = (a : A) × (o ≡ some a)

and_then-accepted : (v w : Verdict) → and_then v w ≡ accepted → (v ≡ accepted) × (w ≡ accepted)
and_then-accepted accepted w e = (refl, e)
and_then-accepted (not_found name) w e = cc
and_then-accepted (circular names) w e = cc
and_then-accepted too_deep w e = cc

and_then-enough : (v w : Verdict) → v ≢ too_deep → w ≢ too_deep → and_then v w ≢ too_deep
and_then-enough accepted w h k = k
and_then-enough (not_found name) w h k = h
and_then-enough (circular names) w h k = h
and_then-enough too_deep w h k = h

module _ {M : Type 0} (subs : SubRules M) where
  -- Every name that a rule of the list jumps to.
  abbrev References : (String → Type 0) → List (Rule M) → Type 0
  References P rs = All (λ (r : Rule M). (name : String) → sub_rule_name r ≡ some name → P name) rs

  verify_reference-accepted :
      (check : String → List String → Verdict) (arr : List String) (o : Option String)
      → verify_reference check subs arr o ≡ accepted
      → (name : String) → o ≡ some name
      → check name arr ≡ accepted
  verify_reference-accepted check arr none e name h = absurd (none-ne-some refl h)
  verify_reference-accepted check arr (some n) e name h = elim (Option-cases (lookup n subs)) [
    | inl missing ↦ cc
    | inr (rs, there) ↦ elim (Bool-cases (is_in_array n arr)) [
      | inl again ↦ let f = rw (there, again) at e in cc
      | inr fresh ↦ let f = rw (there, fresh) at e in cc
    ]
  ]

  verify_rules-accepted :
      (check : String → List String → Verdict) (arr : List String) (rs : List (Rule M))
      → verify_rules check subs arr rs ≡ accepted
      → References (λ name. check name arr ≡ accepted) rs
  verify_rules-accepted check arr [] e = tt
  verify_rules-accepted check arr (r ∷ rs) e =
      let (one, others) =
        and_then-accepted (verify_reference check subs arr (sub_rule_name r))
          (verify_rules check subs arr rs) e in
      (
        verify_reference-accepted check arr (sub_rule_name r) one,
        verify_rules-accepted check arr rs others,
      )

  match_one-Ended :
      (call : String → Matching M) (r : Rule M)
      → ((name : String) → sub_rule_name r ≡ some name → (m : M) → Ended (call name m))
      → (m : M) → Ended (match_one call r m)
  match_one-Ended call (plain c) h m = (match_condition c m, refl)
  match_one-Ended call (sub_rule c name) h m = elim (Bool-cases ((match_condition c m).0.0)) [
    | inl matches ↦ rw matches (h name refl (match_condition c m).1)
    | inr fails ↦ rw fails (((false, ""), (match_condition c m).1), refl)
  ]

  settled-Ended :
      (call : String → Matching M) (o : Option String) (answer : Answer)
      → ((name : String) → o ≡ some name → (m : M) → Ended (call name m))
      → (m : M) → Ended (settled call o answer m)
  settled-Ended call none answer h m = ((answer, m), refl)
  settled-Ended call (some name) answer h m = h name refl m

  match_rules-Ended :
      (call : String → Matching M) (rs : List (Rule M))
      → References (λ name. (m : M) → Ended (call name m)) rs
      → (m : M) → Ended (match_rules call rs m)
  match_rules-Ended call [] h m = (((false, ""), m), refl)
  match_rules-Ended call (r ∷ rs) h m =
      let ((answer, after), e) = match_one-Ended call r h.0 m in
      elim (Bool-cases answer.0) [
        | inl matches ↦ rw (e, matches) (settled-Ended call (sub_rule_name r) answer h.0 after)
        | inr fails ↦ rw (e, fails) (match_rules-Ended call rs h.1 after)
      ]

  All-map :
      {P Q : String → Type 0} (rs : List (Rule M))
      → ((name : String) → P name → Q name)
      → References P rs
      → References Q rs
  All-map [] f h = tt
  All-map (r ∷ rs) f h = (λ name e. f name (h.0 name e), All-map rs f h.1)

  -- The depth that was enough for the check is enough for matching.
  match_sub_rules-Ended :
      (depth : ℕ) (name : String) (arr : List String)
      → verify_circular depth subs name arr ≡ accepted
      → (m : M) → Ended (match_sub_rules depth subs name m)
  unfolding verify_circular match_sub_rules
  match_sub_rules-Ended zero name arr e m = cc
  match_sub_rules-Ended (suc depth) name arr e m =
      let path = arr ++ (name ∷ []) in
      let rs = rules_of name subs in
      match_rules-Ended (match_sub_rules depth subs) rs
        (All-map rs (λ other accepts. match_sub_rules-Ended depth other path accepts)
          (verify_rules-accepted (verify_circular depth subs) path rs e))
        m

  verify_rules-enough :
      (check : String → List String → Verdict) (arr : List String) (rs : List (Rule M))
      → ((name : String) (found : List (Rule M))
          → lookup name subs ≡ some found
          → is_in_array name arr ≡ false
          → check name arr ≢ too_deep)
      → verify_rules check subs arr rs ≢ too_deep
  verify_rules-enough check arr [] h = λ e. cc
  verify_rules-enough check arr (r ∷ rs) h =
      and_then-enough (verify_reference check subs arr (sub_rule_name r))
        (verify_rules check subs arr rs) (reference (sub_rule_name r))
        (verify_rules-enough check arr rs h)
    where
      reference : (o : Option String) → verify_reference check subs arr o ≢ too_deep
      reference none = λ e. cc
      reference (some name) = elim (Option-cases (lookup name subs)) [
        | inl missing ↦ rw missing (λ e. cc)
        | inr (found, there) ↦ elim (Bool-cases (is_in_array name arr)) [
          | inl again ↦ rw (there, again) (λ e. cc)
          | inr fresh ↦ rw (there, fresh) (h name found there fresh)
        ]
      ]

  verify_circular-enough :
      (depth : ℕ) (name : String) (arr : List String) (rs : List (Rule M))
      → lookup name subs ≡ some rs
      → is_in_array name arr ≡ false
      → unvisited arr subs ≤ depth
      → verify_circular depth subs name arr ≢ too_deep
  unfolding verify_circular
  verify_circular-enough zero name arr rs there fresh le =
      absurd (omega (arith, unvisited-append_lt name arr subs rs there fresh))
  verify_circular-enough (suc depth) name arr rs there fresh le =
      let path = arr ++ (name ∷ []) in
      verify_rules-enough (verify_circular depth subs) path (rules_of name subs)
        (λ other found there' fresh'.
          verify_circular-enough depth other path found there' fresh'
            (omega (arith, unvisited-append_lt name arr subs rs there fresh)))

  -- A name of the entries is a name of the map, whichever entry is the first of the name.
  Has : SubRules M → Type 0
  Has entries =
      All
        (λ (entry : String × List (Rule M)). (rs : List (Rule M)) × (lookup entry.0 subs ≡ some rs))
        entries

  verify_names-enough :
      (entries : SubRules M) → Has entries → verify_names (length subs) subs entries ≢ too_deep
  unfolding Has
  verify_names-enough [] h = λ e. cc
  verify_names-enough (entry ∷ rest) h =
      and_then-enough (verify_circular (length subs) subs entry.0 [])
        (verify_names (length subs) subs rest)
        (verify_circular-enough (length subs) entry.0 [] h.0.0 h.0.1 refl
          (omega (arith, unvisited-empty subs)))
        (verify_names-enough rest h.1)

  verify_names-accepted :
      (entries : SubRules M) (name : String) (rs : List (Rule M))
      → verify_names (length subs) subs entries ≡ accepted
      → lookup name entries ≡ some rs
      → verify_circular (length subs) subs name [] ≡ accepted
  verify_names-accepted [] name rs e there = absurd (none-ne-some refl there)
  verify_names-accepted (entry ∷ rest) name rs e there =
      let (one, others) =
        and_then-accepted (verify_circular (length subs) subs entry.0 [])
          (verify_names (length subs) subs rest) e in
      elim (Bool-cases (str_eq entry.0 name)) [
        | inl here ↦ rw (← (str_eq_iff entry.0 name).0 here) one
        | inr elsewhere ↦ verify_names-accepted rest name rs others (rw elsewhere at there)
      ]

  all_there :
      (entries : SubRules M)
      → ((name : String) (rs : List (Rule M))
          → lookup name entries ≡ some rs
          → (found : List (Rule M)) × (lookup name subs ≡ some found))
      → Has entries
  unfolding Has
  all_there [] h = tt
  all_there (entry ∷ rest) h = (
    h entry.0 entry.1 (rw (str_eq_refl entry.0) refl),
    all_there rest (λ name rs there. elim (Bool-cases (str_eq entry.0 name)) [
      | inl here ↦ h name entry.1 (rw here refl)
      | inr elsewhere ↦ h name rs (rw elsewhere there)
    ]),
  )

  pub verify_sub_rule-enough : verify_sub_rule subs ≢ too_deep
  unfolding verify_sub_rule
  verify_sub_rule-enough = verify_names-enough subs (all_there subs (λ name rs there. (rs, there)))

  pub verify_sub_rule-Ended :
      (name : String) (rs : List (Rule M))
      → verify_sub_rule subs ≡ accepted
      → lookup name subs ≡ some rs
      → (m : M) → Ended (match_sub_rules (length subs) subs name m)
  unfolding verify_sub_rule
  verify_sub_rule-Ended name rs e there m =
      match_sub_rules-Ended (length subs) name [] (verify_names-accepted subs name rs e there) m
