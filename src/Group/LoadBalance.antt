-- ===== src/Group/LoadBalance.antt =====
-- outboundgroup/loadbalance.go: the round-robin strategy. The other two strategies hash the
-- connection in floating-point arithmetic and are not modelled.
pub mod RoundRobin
use clash_for_android.Prelude.{
  ℕ, zero, suc, ◌+◌, ◌%◌, Bool, not, List, [], ◌∷◌, String, Option, none, some, if◌then◌else◌,
  length, get_elem?,
}
use clash_for_android.Health.Proxy.{Heap, Member, is_alive}
use clash_for_android.Group.Base.{Group, get_proxies}
use clash_for_android.Group.Selector.{first}

-- A group with the strategy, whose closure keeps `idx`.
pub record LoadBalance : Type 0 where
  pub group : Group
  pub disable_udp : Bool
  pub test_url : String
  pub expected_status : String
  pub hidden : Bool
  pub icon : String
  pub idx : ℕ

unfoldable pub support_udp : LoadBalance → Bool
support_udp lb = not lb.disable_udp

-- One turn of the loop at `i`, with the rest of the loop.
abbrev pub alive_at : Heap → String → Option Member → ℕ → Option Member × ℕ → Option Member × ℕ
alive_at heap url none i rest = rest
alive_at heap url (some p) i rest = if is_alive heap url p then (some p, i + 1) else rest

-- The loop of `strategyRoundRobin` from `i` on, with `n` turns left: the proxy that it returns, if
-- any, and `i` afterwards.
unfoldable pub rotate : Heap → String → List Member → ℕ → ℕ → ℕ → Option Member × ℕ
unfolding is_alive
rotate heap url ps idx zero i = (none, i)
rotate heap url ps idx (suc n) i =
    let rest = rotate heap url ps idx n (i + 1) in
    alive_at heap url (get_elem? ps ((idx + i) % length ps)) i rest

abbrev pub or_head : List Member → Option Member → Option Member
or_head ps (some p) = some p
or_head ps none = first ps

-- The strategy: the proxy, and the next `idx`. `none` is the panic on an empty list.
unfoldable pub round_robin : Heap → String → List Member → Bool → ℕ → Option Member × ℕ
unfolding rotate
round_robin heap url ps touching idx =
    let (found, i) = rotate heap url ps idx (length ps) 0 in
    (or_head ps found, if touching then (idx + i) % length ps else idx)

-- `Unwrap`
unfoldable pub unwrap : Heap → Member → Bool → LoadBalance → Option Member × LoadBalance
unfolding round_robin
unwrap heap compat touching lb =
    let (ps, g) = get_proxies compat touching lb.group in
    let (p, idx) = round_robin heap lb.test_url ps touching lb.idx in
    (p, record lb { group = g; idx = idx })
