-- ===== src/Tests/Rules.antt =====
-- Tests of the logic rules and of the sub-rules.
use clash_for_android.Prelude.{codes, arith, none, ℕ, ◌≡◌, ◌==◌, refl, true, some, [], ◌∷◌}
use clash_for_android.Prelude.{trim}
use clash_for_android.Rules.Line.{parse_rule_payload}
use clash_for_android.Rules.Line.Written.{Written, comma_line, parse_rule_payload-join}
use clash_for_android.Rules.Logic.{
  Condition, base, negation, any_of, all_of, none_left, with_next, plain, sub_rule, SubRules,
  match_condition, match_sub_rules,
}
use clash_for_android.Rules.SubRules.{verify_sub_rule, circular, not_found, accepted}
use clash_for_android.Rules.Payload.{sub_payloads}
use clash_for_android.Rules.Payload.Nested.{Forest, leaf, text, group, print}
use clash_for_android.Rules.Payload.Parts.{sub_payloads-print}
use clash_for_android.Rules.SubRules.Circle.{Decides, verify_sub_rule_lem}

-- Metadata that is a port.
abbrev port_is : ℕ → Condition ℕ
port_is p = base (λ m. ((m == p, "port"), m))

abbrev web : Condition ℕ
web = any_of "web" (with_next (port_is 80) (with_next (port_is 443) none_left))

abbrev rules : SubRules ℕ
rules =
    ("top", sub_rule web "inner" ∷ plain (negation "REJECT" web) ∷ [])
    ∷ (
      "inner",
      plain (all_of "DIRECT" (with_next (port_is 80) none_left))
          ∷ plain (base (λ m. ((true, "PROXY"), m)))
          ∷ [],
    )
    ∷ []

abbrev loop : SubRules ℕ
loop = ("a", sub_rule web "b" ∷ []) ∷ ("b", sub_rule web "a" ∷ []) ∷ []

matched :
    (match_sub_rules 2 rules "top" 80 ≡ some ((true, "DIRECT"), 80))
    × (match_sub_rules 2 rules "top" 443 ≡ some ((true, "PROXY"), 443))
    × (match_sub_rules 2 rules "top" 22 ≡ some ((true, "REJECT"), 22))
unfolding match_sub_rules match_condition
matched = (refl, refl, refl)

verdicts :
    (verify_sub_rule rules ≡ accepted) × (verify_sub_rule loop ≡ circular ("a" ∷ "b" ∷ "a" ∷ []))
unfolding verify_sub_rule clash_for_android.Rules.SubRules.verify_circular
verdicts = (refl, refl)

verify_sub_rule_lem_example : Decides rules "top" 443 (verify_sub_rule rules)
verify_sub_rule_lem_example =
    verify_sub_rule_lem rules "top" (sub_rule web "inner" ∷ plain (negation "REJECT" web) ∷ []) 443
      refl

-- (a),(b,((c),d))
abbrev nested : Forest
nested = group (text b'a' leaf) (
    text b',' (
      group
        (text b'b' (text b',' (group (group (text b'c' leaf) (text b',' (text b'd' leaf))) leaf)))
        leaf))

nested_text : print (group nested leaf) ≡ codes "((a),(b,((c),d)))"
nested_text = refl

sub_payloads-print_example :
    sub_payloads (print (group nested leaf)) ≡ some (codes "a" ∷ codes "b,((c),d)" ∷ [])
sub_payloads-print_example = sub_payloads-print nested (ground arith)

-- A parenthesis that is left open, and one that was never opened.
unbalanced : (sub_payloads (codes "((a)") ≡ none) × (sub_payloads (codes "(a))") ≡ none)
unfolding sub_payloads
unbalanced = (refl, refl)

abbrev line : Written
line =
    comma_line (codes "AND")
      (codes "((DOMAIN" ∷ codes "a.io)" ∷ codes "(NETWORK" ∷ codes "udp))" ∷ []) (codes "DIRECT")

parse_rule_payload-join_example :
    parse_rule_payload (codes "AND,((DOMAIN,a.io),(NETWORK,udp)),DIRECT") true ≡ record {
      tp = codes "AND";
      payload = codes "((DOMAIN,a.io),(NETWORK,udp))";
      target = codes "DIRECT";
      params = [];
    }
unfolding trim
parse_rule_payload-join_example =
    parse_rule_payload-join line (refl, refl, refl)
      (
        record { no_comma = ground arith; trimmed = refl },
        (
          record { no_comma = ground arith; trimmed = refl },
          (
            record { no_comma = ground arith; trimmed = refl },
            (
              record { no_comma = ground arith; trimmed = refl },
              (
                record { no_comma = ground arith; trimmed = refl },
                (record { no_comma = ground arith; trimmed = refl }, tt),
              ),
            ),
          ),
        ),
      )

spaces : parse_rule_payload (codes "ip-cidr, 10.0.0.0/8 ,DIRECT, no-resolve") true ≡ record {
  tp = codes "IP-CIDR";
  payload = codes "10.0.0.0/8";
  target = codes "DIRECT";
  params = codes "no-resolve" ∷ [];
}
unfolding parse_rule_payload
spaces = refl
