-- ===== src/Group/Fallback.antt =====
-- outboundgroup/fallback.go: the first member that is alive, unless the user fixed one.
pub mod Alive
use clash_for_android.Prelude.{
  String, Bool, true, false, Option, none, some, List, [], ◌∷◌, if◌then◌else◌, str_eq, Result, ok,
  err,
}
use clash_for_android.Health.Proxy.{Member, Heap, is_alive}
use clash_for_android.Group.Base.{Group, get_proxies}
use clash_for_android.Group.Selector.{SetError, proxy_not_exist, find_named, first, or_first}

pub record Fallback : Type 0 where
  pub group : Group
  pub disable_udp : Bool
  pub test_url : String
  pub selected : String
  pub expected_status : String
  pub hidden : Bool
  pub icon : String

-- The loop of `findAliveProxy` over the members: the proxy that it returns, if any, and
-- `f.selected` afterwards.
unfoldable pub alive_loop : Heap → String → String → List Member → Option Member × String
unfolding is_alive
alive_loop heap url selected [] = (none, selected)
alive_loop heap url selected (p ∷ ps) =
    let rest = alive_loop heap url selected ps in
    let dropped = alive_loop heap url "" ps in
    let alive = is_alive heap url p in
    if str_eq selected ""
    then (if alive then (some p, selected) else rest)
    else if str_eq p.name selected
    then (if alive then (some p, selected) else dropped)
    else rest

-- `findAliveProxy`; `none` is the panic of `proxies[0]` on an empty list.
unfoldable pub find_alive_proxy : Heap → Member → Bool → Fallback → Option Member × Fallback
unfolding alive_loop
find_alive_proxy heap compat touching f =
    let (ps, g) = get_proxies compat touching f.group in
    let (found, selected) = alive_loop heap f.test_url f.selected ps in
    (or_first ps found, record f { group = g; selected = selected })

abbrev choose : Heap → String → Option Member → Fallback → Result SetError Bool × Fallback
choose heap name none f = (err proxy_not_exist, f)
choose heap name (some p) f = (ok (is_alive heap f.test_url p), record f { selected = name })

-- `Set`: the member that is to be used, alive or not. The result says whether it was alive; if it
-- was not, the code starts a URL test of it.
unfoldable pub set : Heap → Member → String → Fallback → Result SetError Bool × Fallback
set heap compat name f =
    let (ps, g) = get_proxies compat false f.group in
    choose heap name (find_named name ps) (record f { group = g })

-- `ForceSet`
unfoldable pub force_set : String → Fallback → Fallback
force_set name f = record f { selected = name }
