-- ===== src/Tests/Routing.antt =====
-- Tests of the rules.
use clash_for_android.Prelude.{
  ℕ, ltb, if◌then◌else◌, Result, ok, err, ◌≡◌, refl, Bool, true, String, List, [], ◌∷◌, none, some,
  Dict, ◌⊎◌,
}
use clash_for_android.Health.Kind.{pass}
use clash_for_android.Health.Proxy.{Member}
use clash_for_android.Routing.{Target, Rule, match_rules}
use clash_for_android.Routing.FirstMatch.{Chosen, AllSkip, after, match_rules_lem}
use clash_for_android.Routing.Retry.{DialFailure, other, retry, Ended, retry_lem}
use clash_for_android.Tests.Samples.{tokyo, osaka}

-- The metadata say only whether the connection is UDP.
abbrev udp_of : Bool → Bool
udp_of b = b

abbrev names : String → Rule Bool udp_of
names n = record { match_rule = λ m. (some n, m) }

abbrev skip : Member
skip = record { id = 9; name = "PASS"; kind = pass; udp = true }

abbrev proxies : Dict Target
proxies =
    ("PASS", record { proxy = skip; unwrapped = [] })
    ∷ ("osaka", record { proxy = osaka; unwrapped = [] })
    ∷ ("tokyo", record { proxy = tokyo; unwrapped = [] })
    ∷ []

abbrev rules : List (Rule Bool udp_of)
rules = names "nowhere" ∷ names "PASS" ∷ names "osaka" ∷ names "tokyo" ∷ []

-- Osaka carries no UDP.
tokyo_chosen :
    match_rules Bool udp_of proxies rules true
    ≡ (some (record { proxy = tokyo; unwrapped = [] }, names "tokyo"), true)
unfolding match_rules
tokyo_chosen = refl

match_rules_lem_example :
    ((c : Chosen Bool udp_of proxies rules true) × (match_rules Bool udp_of proxies rules true ≡ (
      some (c.target, c.rule),
      (c.rule.match_rule (after Bool udp_of proxies c.before true)).1,
    )))
    ⊎ (AllSkip Bool udp_of proxies rules true
        × (match_rules Bool udp_of proxies rules true ≡ (none, true)))
match_rules_lem_example = match_rules_lem Bool udp_of proxies rules true

-- The third attempt succeeds.
abbrev dial : ℕ → Result DialFailure ℕ
dial i = if ltb i 2 then err other else ok 7

retry_lem_example : Ended (λ i. true) dial 10 0 (retry (λ i. true) dial 0)
retry_lem_example = retry_lem (λ i. true) dial 0

dialled : retry (λ i. true) dial 0 ≡ (ok 7, 3)
unfolding retry
dialled = refl
