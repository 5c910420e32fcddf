-- ===== src/Routing.antt =====
-- clash/tunnel/tunnel.go: which proxy the rules give to a connection.
pub mod FirstMatch
pub mod Retry
pub mod PreHandle
use clash_for_android.Prelude.{
  Bool, true, false, not, ◌&&◌, ◌||◌, String, List, [], ◌∷◌, Option, none, some, Dict, lookup, any,
  if◌then◌else◌,
}
use clash_for_android.Health.Kind.{AdapterType, pass}
use clash_for_android.Health.Proxy.{Member}

-- A proxy of the tunnel, and the ones that it unwraps to, one after the other.
pub record Target : Type 0 where
  pub proxy : Member
  pub unwrapped : List Member

abbrev pub is_pass : AdapterType → Bool
is_pass pass = true
is_pass _ = false

module _ (Metadata : Type 0) (is_udp : Metadata → Bool) where
  -- A rule: the name of its proxy, if it matches, and the metadata afterwards, into which it may
  -- have put the address of the host or the process.
  pub record Rule : Type 0 where
    pub match_rule : Metadata → Option String × Metadata

  -- Whether the proxy, or one that it unwraps to, is PASS.
  unfoldable pub passed : Target → Bool
  passed t = any (λ (p : Member). is_pass p.kind) (t.proxy ∷ t.unwrapped)

  -- What the loop does with a rule that names the proxy.
  abbrev pub take_target :
      Target
      → Rule
      → Metadata
      → Option (Target × Rule) × Metadata
      → Option (Target × Rule) × Metadata
  take_target t r m rest =
      if passed t then rest else if is_udp m && not t.proxy.udp then rest else (some (t, r), m)

  abbrev pub found_or :
      Option Target
      → Rule
      → Metadata
      → Option (Target × Rule) × Metadata
      → Option (Target × Rule) × Metadata
  found_or none r m rest = rest
  found_or (some t) r m rest = take_target t r m rest

  abbrev pub matched_or :
      Dict Target
      → Rule
      → Option String × Metadata
      → Option (Target × Rule) × Metadata
      → Option (Target × Rule) × Metadata
  matched_or proxies r (none, m) rest = rest
  matched_or proxies r (some name, m) rest = found_or (lookup name proxies) r m rest

  -- The loop of `match`; with `none` the proxy is DIRECT, with no rule.
  unfoldable pub match_rules :
      Dict Target → List Rule → Metadata → Option (Target × Rule) × Metadata
  unfolding passed
  match_rules proxies [] m = (none, m)
  match_rules proxies (r ∷ rs) m =
      let r' = r.match_rule m in matched_or proxies r r' (match_rules proxies rs r'.1)

  abbrev pub or_rules : List Rule → Option (List Rule) → List Rule
  or_rules rules none = rules
  or_rules rules (some sub) = sub

  -- `getRules`: the rules of the name that the listener gives, or the usual ones.
  unfoldable pub get_rules : Dict (List Rule) → List Rule → String → List Rule
  get_rules sub_rules rules name = or_rules rules (lookup name sub_rules)

  abbrev pub or_direct : Dict Target → Option (Target × Rule) → Option Target × Option Rule
  or_direct proxies none = (lookup "DIRECT" proxies, none)
  or_direct proxies (some (t, r)) = (some t, some r)

  -- `match`: the proxy (`none` is Go's nil) and the rule, and the metadata afterwards.
  unfoldable pub match :
      Dict Target
      → Dict (List Rule)
      → List Rule
      → (Metadata → String)
      → Metadata
      → (Option Target × Option Rule) × Metadata
  unfolding match_rules get_rules
  match proxies sub_rules rules special m =
      let (found, m') = match_rules proxies (get_rules sub_rules rules (special m)) m in
      (or_direct proxies found, m')
