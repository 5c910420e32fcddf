-- ===== src/Group/UrlTest.antt =====
-- outboundgroup/urltest.go, with common/singledo/singledo.go: the fastest member, kept while it is
-- within the tolerance, and looked for at most once in ten seconds. Calls run one at a time: that
-- a second caller may share a running call is not modelled. Times are milliseconds of one clock.
pub mod Fast
use clash_for_android.Prelude.{
  ℕ, ◌+◌, ◌-◌, ◌%◌, String, Bool, true, false, not, ◌&&◌, ◌||◌, Option, none, some, List, [], ◌∷◌,
  ltb, if◌then◌else◌, str_eq, Result, ok, err,
}
use clash_for_android.Health.Proxy.{Member, Heap, is_alive, delay_of}
use clash_for_android.Group.Base.{Group, touch, get_proxies}
use clash_for_android.Group.Base.Failures.{health_check_begin, health_check_end}
use clash_for_android.Group.Selector.{SetError, proxy_not_exist, find_named}

-- singledo.Single: the last result and its time.
abbrev pub Single : Type 0 → Type 0
Single A = Option (A × ℕ)

pub record UrlTest : Type 0 where
  pub group : Group
  pub selected : String
  pub test_url : String
  pub expected_status : String
  pub tolerance : ℕ
  pub disable_udp : Bool
  pub hidden : Bool
  pub icon : String
  pub fast_node : Option Member
  pub fast_single : Single (Option Member)

-- singledo.NewSingle(time.Second * 10)
abbrev pub single_wait : ℕ
single_wait = 10000

-- The result that a call of `Do` shares instead of running its function.
abbrev pub still_valid : {A : Type 0} → ℕ → Single A → Option A
still_valid now none = none
still_valid now (some (a, time)) = if ltb (now - time) single_wait then some a else none

-- The first loop: the chosen member, if it is alive.
unfoldable pub chosen_alive : Heap → String → String → List Member → Option Member
unfolding is_alive
chosen_alive heap url selected [] = none
chosen_alive heap url selected (p ∷ ps) =
    if is_alive heap url p && str_eq p.name selected
    then some p
    else chosen_alive heap url selected ps

-- The second loop, over `proxies[1:]`: the fastest so far and its delay.
unfoldable pub fastest : Heap → String → Member → ℕ → List Member → Member
unfolding is_alive delay_of
fastest heap url fast min_delay [] = fast
fastest heap url fast min_delay (p ∷ ps) =
    let better = is_alive heap url p && ltb (delay_of heap url p) min_delay in
    fastest heap url (if better then p else fast)
      (if better then delay_of heap url p else min_delay) ps

-- `fastNotExist` is false if the loop meets the name of `u.fastNode`, which it looks for after the
-- first member only.
unfoldable pub fast_met : Option Member → List Member → Bool
fast_met none ps = false
fast_met (some n) [] = false
fast_met (some n) (p ∷ ps) = str_eq p.name n.name || fast_met (some n) ps

-- The test under `// tolerance`; the sum is a uint16.
unfoldable pub must_switch : Heap → String → ℕ → Option Member → Bool → Member → Bool
unfolding is_alive delay_of
must_switch heap url tolerance none met fast = true
must_switch heap url tolerance (some n) met fast =
    not met
    || not (is_alive heap url n)
    || ltb ((delay_of heap url fast + tolerance) % 65536) (delay_of heap url n)

abbrev pub settle : Bool → Member → Option Member → Option Member
settle true fast current = some fast
settle false fast current = current

abbrev pub slowly : Heap → UrlTest → List Member → Option Member
slowly heap u [] = none
slowly heap u (p ∷ ps) =
    let fast = fastest heap u.test_url p (delay_of heap u.test_url p) ps in
    let met = fast_met u.fast_node ps in
    settle (must_switch heap u.test_url u.tolerance u.fast_node met fast) fast u.fast_node

abbrev pub search_node : Heap → UrlTest → List Member → Option Member → Option Member
search_node heap u ps (some p) = some p
search_node heap u ps none = slowly heap u ps

-- The member that the user chose, if it is alive.
abbrev pub choice : Heap → UrlTest → List Member → Option Member
choice heap u ps = if str_eq u.selected "" then none else chosen_alive heap u.test_url u.selected ps

-- The function that `fast` hands to `Do`: the proxy, which is also what `u.fastNode` becomes.
-- `none` is the panic of `proxies[0]` on an empty list.
unfoldable pub find_fast : Heap → UrlTest → List Member → Option Member
unfolding chosen_alive fastest fast_met must_switch
find_fast heap u ps = search_node heap u ps (choice heap u ps)

unfoldable pub run_fast : Heap → Member → Bool → ℕ → UrlTest → Option Member × UrlTest
unfolding find_fast
run_fast heap compat touching now u =
    let (ps, g) = get_proxies compat touching u.group in
    let node = find_fast heap u ps in
    (node, record u { group = g; fast_node = node; fast_single = some (node, now) })

abbrev shared_or :
    Heap → Member → Bool → ℕ → UrlTest → Option (Option Member) → Option Member × UrlTest
shared_or heap compat touching now u (some node) =
    (node, if touching then record u { group = touch u.group } else u)
shared_or heap compat touching now u none =
    run_fast heap compat touching now (record u { fast_single = none })

unfoldable pub fast : Heap → Member → Bool → ℕ → UrlTest → Option Member × UrlTest
unfolding run_fast
fast heap compat touching now u =
    shared_or heap compat touching now u (still_valid now u.fast_single)

unfoldable pub force_set : String → UrlTest → UrlTest
force_set name u = record u { selected = name; fast_single = none }

abbrev pub choose : String → Option Member → UrlTest → Result SetError (Unit {0}) × UrlTest
choose name none u = (err proxy_not_exist, u)
choose name (some _) u = (ok tt, force_set name u)

unfoldable pub set : Member → String → UrlTest → Result SetError (Unit {0}) × UrlTest
unfolding force_set
set compat name u =
    let (ps, g) = get_proxies compat false u.group in
    choose name (find_named name ps) (record u { group = g })
