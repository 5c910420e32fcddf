-- ===== src/Routing/FirstMatch.antt =====
-- The first rule whose proxy can be used decides (clash/tunnel/tunnel.go).
use clash_for_android.Prelude.{
  Bool, true, false, not, ◌&&◌, ◌≡◌, refl, sym, ◌∙◌, ap, String, List, [], ◌∷◌, ◌++◌, Option, none,
  some, Dict, lookup, ◌⊎◌, inl, inr, Bool-cases, Option-cases, subst,
}
use mathlib.Core.Option.{some-injective}
use clash_for_android.Routing.{Target, Rule, passed, found_or, matched_or, match_rules}

module _ (Metadata : Type 0) (is_udp : Metadata → Bool) (proxies : Dict Target) where
  -- The rule, at this metadata, names a proxy of the table that is not PASS, and that carries UDP
  -- if the connection needs it.
  pub record Decides (r : Rule Metadata is_udp) (m : Metadata) (t : Target) : Type 0 where
    pub name : String
    pub matches : (r.match_rule m).0 ≡ some name
    pub known : lookup name proxies ≡ some t
    pub not_passed : passed Metadata is_udp t ≡ false
    pub carried : (is_udp (r.match_rule m).1 && not t.proxy.udp) ≡ false

  -- The metadata after the rules have looked at it.
  abbrev pub after : List (Rule Metadata is_udp) → Metadata → Metadata
  after [] m = m
  after (r ∷ rs) m = after rs (r.match_rule m).1

  -- None of the rules decides, each at the metadata that those before it leave.
  abbrev pub AllSkip : List (Rule Metadata is_udp) → Metadata → Type 0
  AllSkip [] m = Unit
  AllSkip (r ∷ rs) m = ((t : Target) → ¬ Decides r m t) × AllSkip rs (r.match_rule m).1

module _ (Metadata : Type 0) (is_udp : Metadata → Bool) (proxies : Dict Target) where
  -- A rule that decides, after rules that do not.
  pub record Chosen (rs : List (Rule Metadata is_udp)) (m : Metadata) : Type 0 where
    pub before : List (Rule Metadata is_udp)
    pub rule : Rule Metadata is_udp
    pub behind : List (Rule Metadata is_udp)
    pub target : Target
    pub split : rs ≡ before ++ rule ∷ behind
    pub skipped : AllSkip Metadata is_udp proxies before m
    pub decides :
        Decides Metadata is_udp proxies rule (after Metadata is_udp proxies before m) target

module _ (Metadata : Type 0) (is_udp : Metadata → Bool) (proxies : Dict Target) where
  -- How the loop ends.
  abbrev pub Ends :
      List (Rule Metadata is_udp)
      → Metadata
      → Option (Target × Rule Metadata is_udp) × Metadata
      → Type 0
  Ends rs m res =
      ((c : Chosen Metadata is_udp proxies rs m) × (res ≡ (
        some (c.target, c.rule),
        (c.rule.match_rule (after Metadata is_udp proxies c.before m)).1,
      )))
      ⊎ (AllSkip Metadata is_udp proxies rs m × (res ≡ (none, after Metadata is_udp proxies rs m)))

  Ends-skip :
      (r : Rule Metadata is_udp) (rs : List (Rule Metadata is_udp)) (m : Metadata)
      (res : Option (Target × Rule Metadata is_udp) × Metadata)
      → ((t : Target) → ¬ Decides Metadata is_udp proxies r m t)
      → Ends rs (r.match_rule m).1 res
      → Ends (r ∷ rs) m res
  Ends-skip r rs m res n (inl (c, e)) = inl (
    record {
      before = r ∷ c.before;
      rule = c.rule;
      behind = c.behind;
      target = c.target;
      split = ap (◌∷◌ r) c.split;
      skipped = (n, c.skipped);
      decides = c.decides;
    },
    e,
  )
  Ends-skip r rs m res n (inr (h, e)) = inr ((n, h), e)

  Ends-here :
      (r : Rule Metadata is_udp) (rs : List (Rule Metadata is_udp)) (m : Metadata) (t : Target)
      → Decides Metadata is_udp proxies r m t
      → Ends (r ∷ rs) m (some (t, r), (r.match_rule m).1)
  Ends-here r rs m t d = inl (
    record {
      before = [];
      rule = r;
      behind = rs;
      target = t;
      split = refl;
      skipped = tt;
      decides = d;
    },
    refl,
  )

  some-some : {A : Type 0} {o : Option A} {a b : A} → o ≡ some a → o ≡ some b → a ≡ b
  some-some e f = some-injective _ _ (sym e ∙ f)

  matched_or-none :
      (r : Rule Metadata is_udp) (x : Option String × Metadata)
      (res : Option (Target × Rule Metadata is_udp) × Metadata)
      → x.0 ≡ none
      → matched_or Metadata is_udp proxies r x res ≡ res
  matched_or-none r (none, m) res e = refl
  matched_or-none r (some name, m) res e = cc

  matched_or-some :
      (r : Rule Metadata is_udp) (x : Option String × Metadata) (name : String)
      (res : Option (Target × Rule Metadata is_udp) × Metadata)
      → x.0 ≡ some name
      → matched_or Metadata is_udp proxies r x res
        ≡ found_or Metadata is_udp (lookup name proxies) r x.1 res
  matched_or-some r (none, m) name res e = cc
  matched_or-some r (some other, m) name res e =
      ap (λ (n : String). found_or Metadata is_udp (lookup n proxies) r m res)
        (some-injective _ _ e)

  none-some_ne : {A : Type 0} {o : Option A} {a : A} → o ≡ none → o ≡ some a → ⊥
  none-some_ne e f = cc

  true-false_ne : {b : Bool} → b ≡ true → b ≡ false → ⊥
  true-false_ne e f = cc

  -- A rule names one proxy.
  same_target :
      (r : Rule Metadata is_udp) (m : Metadata) (name : String) (t u : Target)
      → (r.match_rule m).0 ≡ some name
      → lookup name proxies ≡ some t
      → Decides Metadata is_udp proxies r m u
      → t ≡ u
  same_target r m name t u e l d =
      some-some l (ap (λ (n : String). lookup n proxies) (some-some e d.matches) ∙ d.known)

  Ends-turn :
      (r : Rule Metadata is_udp) (rs : List (Rule Metadata is_udp)) (m : Metadata)
      (res : Option (Target × Rule Metadata is_udp) × Metadata)
      → Ends rs (r.match_rule m).1 res
      → Ends (r ∷ rs) m (matched_or Metadata is_udp proxies r (r.match_rule m) res)
  Ends-turn r rs m res h = elim (Option-cases (r.match_rule m).0) [
    | inl e ↦
        subst (Ends (r ∷ rs) m) (sym (matched_or-none r (r.match_rule m) res e))
          (Ends-skip r rs m res (λ u d. none-some_ne e d.matches) h)
    | inr (name, e) ↦
        let value = matched_or-some r (r.match_rule m) name res e in
        elim (Option-cases (lookup name proxies)) [
          | inl l ↦ subst (Ends (r ∷ rs) m) (sym (value ∙ rw l)) (
              Ends-skip r rs m res
                (λ u d.
                  none-some_ne l
                    (ap (λ (n : String). lookup n proxies) (some-some e d.matches) ∙ d.known))
                h)
          | inr (t, l) ↦ elim (Bool-cases (passed Metadata is_udp t)) [
            | inl p ↦ subst (Ends (r ∷ rs) m) (sym (value ∙ rw (l, p))) (
                Ends-skip r rs m res
                  (λ u d.
                    true-false_ne p
                      (ap (passed Metadata is_udp) (same_target r m name t u e l d) ∙ d.not_passed))
                  h)
            | inr p ↦ elim (Bool-cases (is_udp (r.match_rule m).1 && not t.proxy.udp)) [
              | inl u ↦ subst (Ends (r ∷ rs) m) (sym (value ∙ rw (l, p, u))) (
                  Ends-skip r rs m res
                    (λ v d. true-false_ne u (
                      ap (λ (x : Target). is_udp (r.match_rule m).1 && not x.proxy.udp)
                        (same_target r m name t v e l d)
                      ∙ d.carried))
                    h)
              | inr u ↦ subst (Ends (r ∷ rs) m) (sym (value ∙ rw (l, p, u))) (
                  Ends-here r rs m t
                    (record { name = name; matches = e; known = l; not_passed = p; carried = u }))
            ]
          ]
        ]
  ]

  -- The loop over the rules gives the first rule that names a usable proxy of the table, with that
  -- proxy: one that is not PASS and unwraps to none, and that carries UDP if the connection is UDP.
  -- The rules before it decide nothing, each on the metadata that those before it left. Otherwise
  -- no rule decides, and there is no result.
  pub match_rules_lem :
      (rs : List (Rule Metadata is_udp)) (m : Metadata)
      → Ends rs m (match_rules Metadata is_udp proxies rs m)
  unfolding match_rules
  match_rules_lem [] m = inr (tt, refl)
  match_rules_lem (r ∷ rs) m =
      Ends-turn r rs m (match_rules Metadata is_udp proxies rs (r.match_rule m).1)
        (match_rules_lem rs (r.match_rule m).1)
