-- ===== src/Health/Proxy/Tests.antt =====
-- What a URL test leaves behind for the groups that read a proxy's health.
use clash_for_android.Prelude.{
  ℕ, ◌≤◌, ◌≡◌, ◌≢◌, ◌&&◌, String, List, [], ◌∷◌, length, ◌==◌, if◌then◌else◌, Dict, lookup, insert,
  lookup-insert, All, arith, str_eq_iff, str_eq_refl, not,
}
use clash_for_android.Health.Queue
use clash_for_android.Health.Proxy.{
  Proxy, ProxyState, DelayHistory, Outcome, satisfied, measured, succeeded, url_test,
  alive_for_test_url, last_delay_for_test_url, alive_of, max_delay, no_history, StateFits,
  IsBounded, put_history, default_histories_num, state_or_new,
}

-- The delay that a test makes readable: the largest uint16 unless the answer was as expected and
-- took a number of milliseconds that is not 0 as a uint16.
abbrev pub visible_delay : Outcome → ℕ
visible_delay o = if satisfied o && not (measured o == 0) then measured o else max_delay

last-put_history :
    (x : DelayHistory) (q : List DelayHistory) → Queue.last no_history (put_history x q) ≡ x
unfolding put_history
last-put_history x q = Queue.last-put_bounded default_histories_num no_history x q (omega arith)

-- After a test for a URL, the proxy counts as alive for it exactly if the answer was as expected,
-- and its last delay for it is `visible_delay`: the one measured, as a uint16, if the answer was as
-- expected and that is not 0, and 65535 otherwise. The last delay for any other URL is unchanged, and so is
-- the liveness for one that has been tested; for one that has not, the liveness is the proxy's
-- own, which the test sets.
pub url_test-reads :
    (url other : String) (now : ℕ) (o : Outcome) (p : Proxy)
    → other ≢ url
    → (alive_for_test_url (url_test url now o p) url ≡ satisfied o)
      × (last_delay_for_test_url (url_test url now o p) url ≡ visible_delay o)
      × (alive_for_test_url (url_test url now o p) other
          ≡ alive_of (succeeded o) (lookup other p.extra))
      × (last_delay_for_test_url (url_test url now o p) other ≡ last_delay_for_test_url p other)
unfolding url_test alive_for_test_url last_delay_for_test_url
url_test-reads url other now o p ne = (
  rw (lookup-insert, str_eq_refl),
  rw (lookup-insert, str_eq_refl, last-put_history) (ground arith),
  rw lookup-insert (ground (arith, str_eq_iff url other)),
  rw lookup-insert (ground (arith, str_eq_iff url other)),
)

put_history-fits :
    (x : DelayHistory) (q : List DelayHistory)
    → length q ≤ default_histories_num
    → length (put_history x q) ≤ default_histories_num
unfolding put_history
put_history-fits x q h = Queue.length-put_bounded-le default_histories_num no_history x q h

insert-fits :
    (k : String) (s : ProxyState) (m : Dict ProxyState)
    → length s.history ≤ default_histories_num
    → All StateFits m
    → All StateFits (insert k s m)
insert-fits k s [] h hs = (h, tt)
insert-fits k s ((j, w) ∷ m) h (hw, hm) = ground (arith, insert-fits k s m h hm)

lookup-fits :
    (k : String) (m : Dict ProxyState)
    → All StateFits m
    → length (state_or_new (lookup k m)).history ≤ default_histories_num
lookup-fits k [] hm = omega arith
lookup-fits k ((j, w) ∷ m) (hw, hm) = ground (arith, lookup-fits k m hm)

-- A test keeps every history within ten entries.
pub url_test-IsBounded :
    (url : String) (now : ℕ) (o : Outcome) (p : Proxy)
    → IsBounded p
    → IsBounded (url_test url now o p)
unfolding url_test
url_test-IsBounded url now o p h = record {
  history = put_history-fits _ p.history h.history;
  extra =
      insert-fits url _ p.extra
        (put_history-fits _ (state_or_new (lookup url p.extra)).history
          (lookup-fits url p.extra h.extra))
        h.extra;
}
