-- ===== src/Group/Selector.antt =====
-- outboundgroup/selector.go: a group whose member the user chooses.
pub mod Choice
use clash_for_android.Prelude.{
  ◌≡◌, refl, sym, ◌∙◌, ap, String, Bool, true, false, not, ◌&&◌, Option, none, some, List, [], ◌∷◌,
  arith, if◌then◌else◌, str_eq, str_eq_iff, str_eq_refl, Result, ok, err, map, Option-cases, inl,
  inr,
}
use clash_for_android.Health.Proxy.{Member}
use clash_for_android.Group.Base.{Group, Provider, Filter, members, new_group, get_proxies}
use clash_for_android.Group.Base.Cache.{IsCoherent, visible, get_proxies_lem}

pub record Selector : Type 0 where
  pub group : Group
  pub disable_udp : Bool
  pub selected : String
  pub test_url : String
  pub hidden : Bool
  pub icon : String

-- The loops that look for a name.
abbrev pub find_named : String → List Member → Option Member
find_named name [] = none
find_named name (p ∷ ps) = if str_eq p.name name then some p else find_named name ps

abbrev pub first : List Member → Option Member
first [] = none
first (p ∷ ps) = some p

abbrev pub or_first : List Member → Option Member → Option Member
or_first ps none = first ps
or_first ps (some p) = some p

-- `selectedProxy`; `none` is the panic of `proxies[0]` on an empty list.
unfoldable pub selected_proxy : Member → Bool → Selector → Option Member × Selector
selected_proxy compat touching s =
    let (ps, g) = get_proxies compat touching s.group in
    (or_first ps (find_named s.selected ps), record s { group = g })

abbrev pub name_of : Option Member × Selector → Option String × Selector
name_of (none, s) = (none, s)
name_of (some p, s) = (some p.name, s)

unfoldable pub now : Member → Selector → Option String × Selector
now compat s = name_of (selected_proxy compat false s)

abbrev udp_of : Option Member × Selector → Option Bool × Selector
udp_of (none, s) = (none, s)
udp_of (some p, s) = (some p.udp, s)

unfoldable pub support_udp : Member → Selector → Option Bool × Selector
support_udp compat s =
    if s.disable_udp then (some false, s) else udp_of (selected_proxy compat false s)

pub data SetError : Type 0 where
  proxy_not_exist : SetError

abbrev pub choose : String → Option Member → Selector → Result SetError (Unit {0}) × Selector
choose name none s = (err proxy_not_exist, s)
choose name (some _) s = (ok tt, record s { selected = name })

-- `Set`
unfoldable pub set : Member → String → Selector → Result SetError (Unit {0}) × Selector
set compat name s =
    let (ps, g) = get_proxies compat false s.group in
    choose name (find_named name ps) (record s { group = g })

-- `ForceSet`
unfoldable pub force_set : String → Selector → Selector
force_set name s = record s { selected = name }

-- NewSelector, from the group that NewGroupBase makes.
unfoldable pub new_selector : Group → Bool → String → Bool → String → Selector
new_selector g disable_udp url hidden icon = record {
  group = g;
  disable_udp = disable_udp;
  selected = "COMPATIBLE";
  test_url = url;
  hidden = hidden;
  icon = icon;
}
