-- ===== src/Health/Proxy.antt =====
-- adapter/adapter.go: a proxy's liveness and delay history, for the proxy as a whole and for each
-- test URL. What the network answers to a test is an argument; times are numbers of a clock.
pub mod Tests
use clash_for_android.Prelude.{
  ℕ, ◌%◌, ◌≤◌, String, Bool, true, false, Option, none, some, List, [], length, ◌==◌, if◌then◌else◌,
  Dict, lookup, insert, All, ◌||◌, not,
}
use clash_for_android.Health.Kind.{AdapterType}
use clash_for_android.Health.Queue

-- C.DelayHistory
pub record DelayHistory : Type 0 where
  pub time : ℕ
  pub delay : ℕ

abbrev pub no_history : DelayHistory
no_history = record { time = 0; delay = 0 }

-- internalProxyState
pub record ProxyState : Type 0 where
  pub alive : Bool
  pub history : List DelayHistory

-- A pointer to a `Proxy`, with what never changes of the adapter that it wraps.
pub record Member : Type 0 where
  pub id : ℕ
  pub name : String
  pub kind : AdapterType
  pub udp : Bool

-- The fields of `Proxy` that change.
pub record Proxy : Type 0 where
  pub alive : Bool
  pub history : List DelayHistory
  pub extra : Dict ProxyState

unfoldable pub new_proxy : Proxy
new_proxy = record { alive = true; history = []; extra = [] }

-- What the pointers point to.
abbrev pub Heap : Type 0
Heap = ℕ → Proxy

abbrev pub default_histories_num : ℕ
default_histories_num = 10

abbrev pub max_delay : ℕ
max_delay = 0xffff

abbrev pub alive_of : Bool → Option ProxyState → Bool
alive_of alive none = alive
alive_of alive (some s) = s.alive

unfoldable pub alive_for_test_url : Proxy → String → Bool
alive_for_test_url p url = alive_of p.alive (lookup url p.extra)

abbrev pub last_delay_of : Option ProxyState → ℕ
last_delay_of none = max_delay
last_delay_of (some s) =
    let history = Queue.last no_history s.history in
    if not s.alive || history.delay == 0 then max_delay else history.delay

unfoldable pub last_delay_for_test_url : Proxy → String → ℕ
unfolding Queue.last
last_delay_for_test_url p url = last_delay_of (lookup url p.extra)

unfoldable pub is_alive : Heap → String → Member → Bool
unfolding alive_for_test_url
is_alive heap url m = alive_for_test_url (heap m.id) url

unfoldable pub delay_of : Heap → String → Member → ℕ
unfolding last_delay_for_test_url
delay_of heap url m = last_delay_for_test_url (heap m.id) url

unfoldable pub delay_history : Proxy → List DelayHistory
unfolding Queue.copy
delay_history p = Queue.copy p.history

unfoldable pub delay_history_for_test_url : Proxy → String → List DelayHistory
unfolding Queue.copy
delay_history_for_test_url p url = elim (lookup url p.extra) [
  | none ↦ []
  | some s ↦ Queue.copy s.history
]

-- The end of a test: `failed` if `err` is set, or the milliseconds that passed, and whether the
-- status code was one of those expected.
pub data Outcome : Type 0 where
  failed : Outcome
  answered : ℕ → Bool → Outcome

abbrev pub succeeded : Outcome → Bool
succeeded failed = false
succeeded (answered _ _) = true

abbrev pub satisfied : Outcome → Bool
satisfied failed = false
satisfied (answered _ b) = b

-- `t` is a uint16.
abbrev pub measured : Outcome → ℕ
measured failed = 0
measured (answered ms _) = ms % 65536

abbrev pub new_state : ProxyState
new_state = record { alive = true; history = [] }

abbrev pub state_or_new : Option ProxyState → ProxyState
state_or_new none = new_state
state_or_new (some s) = s

unfoldable pub put_history : DelayHistory → List DelayHistory → List DelayHistory
put_history = Queue.put_bounded default_histories_num no_history

-- The deferred function of `URLTest`.
unfoldable pub url_test : String → ℕ → Outcome → Proxy → Proxy
unfolding put_history
url_test url now o p =
    let entry : DelayHistory = record { time = now; delay = measured o } in
    let state = state_or_new (lookup url p.extra) in
    let delay = if satisfied o then measured o else 0 in
    record p {
      alive = succeeded o;
      history = put_history entry p.history;
      extra =
          insert url
            (record {
              alive = satisfied o;
              history = put_history (record { time = now; delay = delay }) state.history;
            })
            p.extra;
    }

-- A test of one proxy, through a pointer to it.
unfoldable pub url_test_at : Member → String → ℕ → Outcome → Heap → Heap
url_test_at m url now o heap i = if i == m.id then url_test url now o (heap i) else heap i

abbrev pub StateFits : String × ProxyState → Type 0
StateFits e = length e.1.history ≤ default_histories_num

-- Each history keeps to its limit.
pub record IsBounded (p : Proxy) : Type 0 where
  pub history : length p.history ≤ default_histories_num
  pub extra : All StateFits p.extra
