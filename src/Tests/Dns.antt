-- ===== src/Tests/Dns.antt =====
-- Tests of the hosts, of the enhancer, and of the way from a name to its fake address and back.
use clash_for_android.Prelude.{
  ℕ, zero, suc, ◌≡◌, ◌≤◌, ◌<◌, refl, true, false, Bytes, codes, [], ◌∷◌, none, some,
}
use clash_for_android.FakeIp.Pool.{Pool}
use clash_for_android.FakeIp.Pool.Lookup.{IsCoherent}
use clash_for_android.FakeIp.Pool.Fresh.{new-IsCoherent}
use clash_for_android.Trie.Node.{Node, new_node}
use clash_for_android.Trie.Domain.{insert_domain}
use clash_for_android.Trie.Pattern.{insert_all}
use clash_for_android.Dns.Enhancer.{
  Addr, addr_4, addr_6, addr_eq, mapping_size, MappingCache, Enhancer, dns_fake_ip, dns_normal,
  is_fake_ip,
}
use clash_for_android.Dns.Hosts.{HostValue, follow}
use clash_for_android.Dns.FakeAnswer.{Skipper, type_a, with_fake_ip, fake_answer}
use clash_for_android.Routing.PreHandle.{Destination, HostTable, handled, pre_handle_metadata}
use clash_for_android.Routing.PreHandle.FakeHost.{pre_handle_metadata-with_fake_ip}
use clash_for_android.Tests.FakeIp.{list_cache, ips, hosts, empty, pool, empty-IsEmpty, pool-new}

abbrev mappings : MappingCache
mappings = list_cache Addr Bytes addr_eq mapping_size

abbrev enhancer : Enhancer ips hosts mappings
enhancer = record {
  mode = dns_fake_ip;
  fake_ip_pool = some pool;
  fake_ip_pool_6 = some pool;
  mapping = some [];
}

-- With two pools only the first one is asked whether an address is a fake one.
six_ignored :
    (is_fake_ip ips hosts mappings (addr_4 3323068421) enhancer ≡ true)
    × (is_fake_ip ips hosts mappings (addr_6 3323068421) enhancer ≡ false)
    × (is_fake_ip ips hosts mappings (addr_6 3323068421) (record enhancer { fake_ip_pool = none })
        ≡ true)
unfolding is_fake_ip
six_ignored = (refl, refl, refl)

abbrev alias : Bytes → HostValue
alias domain = record { is_domain = true; ips = []; domain = domain }

abbrev own_name : Node HostValue
own_name = insert_all ((codes "a.io", alias (codes "a.io")) ∷ []) new_node

-- A name that stands for itself: the search for its addresses goes on for ever.
follow-own_name : (fuel : ℕ) → follow fuel own_name false (alias (codes "a.io")) ≡ none
unfolding follow insert_domain
follow-own_name zero = refl
follow-own_name (suc fuel) = follow-own_name fuel

abbrev skipper : Skipper
skipper = record { host = []; white_list = false }

abbrev no_hosts : HostTable
no_hosts = record { fuel = 1; table = new_node; system = λ domain. none; rand = λ addresses. 0 }

abbrev connection : Destination
connection = record { host = []; dst_ip = none; dns_mode = dns_normal }

pre_handle_metadata-with_fake_ip_example :
    (ip : ℕ) × (p' : Pool ips hosts) × (after : Enhancer ips hosts mappings) × (with_fake_ip ips
        hosts mappings skipper
        (codes "Example.org.")
        type_a
        enhancer
      ≡ (fake_answer (addr_4 ip), record enhancer { fake_ip_pool = some p' }))
    × (3323068420 ≤ ip)
    × (ip < 3323068423)
    × IsCoherent ips hosts p'
    × (pre_handle_metadata ips hosts mappings no_hosts
          (record connection { dst_ip = some (addr_4 ip) })
          (some (record enhancer { fake_ip_pool = some p' }))
        ≡ some (
          handled (record { host = codes "example.org"; dst_ip = none; dns_mode = dns_fake_ip }),
          some after,
        ))
pre_handle_metadata-with_fake_ip_example =
    pre_handle_metadata-with_fake_ip ips hosts mappings enhancer pool skipper (codes "Example.org.")
      no_hosts connection refl refl
      (new-IsCoherent ips hosts 32 3323068417 29 empty pool empty-IsEmpty pool-new) refl refl
