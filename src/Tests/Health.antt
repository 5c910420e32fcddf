-- ===== src/Tests/Health.antt =====
-- Tests of the proxies' health.
use clash_for_android.Prelude.{◌≡◌, ◌≢◌, refl, String, true, false, arith, str_eq_iff}
use clash_for_android.Health.Proxy.{answered, url_test, alive_for_test_url, last_delay_for_test_url}
use clash_for_android.Health.Proxy.Tests.{url_test-reads}
use clash_for_android.Tests.Samples.{url, state}

abbrev other_url : String
other_url = "http://example.com"

other_ne : other_url ≢ url
other_ne = ground (arith, str_eq_iff other_url url)

url_test-reads_example :
    (alive_for_test_url (url_test url 5 (answered 90 true) (state false 0)) url ≡ true)
    × (last_delay_for_test_url (url_test url 5 (answered 90 true) (state false 0)) url ≡ 90)
    × (alive_for_test_url (url_test url 5 (answered 90 true) (state false 0)) other_url ≡ true)
    × (last_delay_for_test_url (url_test url 5 (answered 90 true) (state false 0)) other_url
        ≡ last_delay_for_test_url (state false 0) other_url)
url_test-reads_example = url_test-reads url other_url 5 (answered 90 true) (state false 0) other_ne

-- An answer that was not expected leaves the proxy alive, but not for the URL.
unexpected : alive_for_test_url (url_test url 5 (answered 90 false) (state true 80)) url ≡ false
unfolding alive_for_test_url url_test
unexpected = refl
