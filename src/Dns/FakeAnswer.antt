-- ===== src/Dns/FakeAnswer.antt =====
-- dns/middleware.go: the answer with a fake address, and component/fakeip/skipper.go.
use mathlib.Core.List.{reverse}
use clash_for_android.Prelude.{
  Bool, not, Option, none, some, List, Bytes, any, trim_left, ◌==◌, if◌then◌else◌,
}
use clash_for_android.FakeIp.Base.{IpCache, HostCache}
use clash_for_android.FakeIp.Pool.{Pool, lookup}
use clash_for_android.Dns.Enhancer.{Addr, addr_4, addr_6, MappingCache, Enhancer}

-- `Skipper`: matchers of domains, and whether they say what is faked or what is not.
pub record Skipper : Type 0 where
  pub host : List (Bytes → Bool)
  pub white_list : Bool

-- `ShouldSkipped`
abbrev pub should_skipped : Skipper → Bytes → Bool
should_skipped s domain =
    let should = any (λ matcher. matcher domain) s.host in
    if s.white_list then not should else should

-- strings.TrimRight(name, ".")
abbrev pub trim_dots : Bytes → Bytes
trim_dots name = reverse (trim_left (λ c. c == b'.') (reverse name))

pub data Qtype : Type 0 where
  type_a type_aaaa type_svcb type_https other_type : Qtype

-- An answer with an address, one without any, or what the next handler says.
pub data Reply : Type 0 where
  fake_answer : Addr → Reply
  empty_answer next_handler : Reply

module _ (ips : IpCache) (hosts : HostCache) (mappings : MappingCache) where
  abbrev pub answer_4 :
      Bytes
      → Enhancer ips hosts mappings
      → Option (Pool ips hosts)
      → Reply × Enhancer ips hosts mappings
  answer_4 host e none = (empty_answer, e)
  answer_4 host e (some p) =
      let (ip, p') = lookup ips hosts host p in
      (fake_answer (addr_4 ip), record e { fake_ip_pool = some p' })

  abbrev pub answer_6 :
      Bytes
      → Enhancer ips hosts mappings
      → Option (Pool ips hosts)
      → Reply × Enhancer ips hosts mappings
  answer_6 host e none = (empty_answer, e)
  answer_6 host e (some p) =
      let (ip, p') = lookup ips hosts host p in
      (fake_answer (addr_6 ip), record e { fake_ip_pool_6 = some p' })

  abbrev pub answer_type :
      Bytes → Qtype → Enhancer ips hosts mappings → Reply × Enhancer ips hosts mappings
  answer_type host type_a e = answer_4 host e e.fake_ip_pool
  answer_type host type_aaaa e = answer_6 host e e.fake_ip_pool_6
  answer_type host type_svcb e = (empty_answer, e)
  answer_type host type_https e = (empty_answer, e)
  answer_type host other_type e = (next_handler, e)

  -- `withFakeIP`
  unfoldable pub with_fake_ip :
      Skipper → Bytes → Qtype → Enhancer ips hosts mappings → Reply × Enhancer ips hosts mappings
  unfolding lookup
  with_fake_ip skipper name qtype e =
      if should_skipped skipper (trim_dots name)
      then (next_handler, e)
      else answer_type (trim_dots name) qtype e
