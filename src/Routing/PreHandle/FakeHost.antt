-- ===== src/Routing/PreHandle/FakeHost.antt =====
-- A name that DNS answers with a fake address is found again when a connection to that address
-- comes (dns/middleware.go, component/fakeip/pool.go, dns/enhancer.go, clash/tunnel/tunnel.go).
use clash_for_android.Prelude.{ℕ, ◌≡◌, ◌≤◌, ◌<◌, refl, false, none, some, [], Bytes, map, lower}
use clash_for_android.FakeIp.Base.{IpCache, HostCache}
use clash_for_android.FakeIp.Pool.{Pool, lookup, look_back}
use clash_for_android.FakeIp.Pool.Lookup.{IsCoherent, look_back-lookup}
use clash_for_android.Dns.Enhancer.{
  addr_4, MappingCache, Enhancer, dns_fake_ip, fake_ip_enabled, mapping_enabled, find_host_by_ip,
}
use clash_for_android.Dns.FakeAnswer.{
  Skipper, should_skipped, trim_dots, type_a, fake_answer, with_fake_ip,
}
use clash_for_android.Routing.PreHandle.{Destination, handled, HostTable, pre_handle_metadata}

module _ (ips : IpCache) (hosts : HostCache) (mappings : MappingCache) where
  -- In the fake-IP mode with a coherent pool, a question for the address of a name that is not
  -- skipped is answered with a fake address of the pool, which stays coherent; and a connection to
  -- that address, with no host of its own, then gets the name in lower case without dots at its
  -- end, no address, and the mode of fake addresses.
  pub pre_handle_metadata-with_fake_ip :
      (e : Enhancer ips hosts mappings) (p : Pool ips hosts) (skipper : Skipper) (name : Bytes)
      (t : HostTable) (m : Destination)
      → e.mode ≡ dns_fake_ip
      → e.fake_ip_pool ≡ some p
      → IsCoherent ips hosts p
      → should_skipped skipper (trim_dots name) ≡ false
      → m.host ≡ []
      → (ip : ℕ) × (p' : Pool ips hosts) × (after : Enhancer ips hosts mappings) × (with_fake_ip ips
            hosts mappings skipper name type_a e
          ≡ (fake_answer (addr_4 ip), record e { fake_ip_pool = some p' }))
        × (p.first ≤ ip)
        × (ip < p.last)
        × IsCoherent ips hosts p'
        × (pre_handle_metadata ips hosts mappings t
              (record m { dst_ip = some (addr_4 ip) })
              (some (record e { fake_ip_pool = some p' }))
            ≡ some (
              handled (record {
                host = map lower (trim_dots name);
                dst_ip = none;
                dns_mode = dns_fake_ip;
              }),
              some after,
            ))
  unfolding with_fake_ip pre_handle_metadata find_host_by_ip fake_ip_enabled mapping_enabled
  pre_handle_metadata-with_fake_ip e p skipper name t m mode pool c kept empty =
      let host = trim_dots name in
      let (found, from, below, coherent, still) = look_back-lookup ips hosts host p c in
      let (ip, p') = lookup ips hosts host p in
      (
        ip,
        p',
        record e { fake_ip_pool = some (look_back ips hosts ip p').1 },
        rw (kept, pool) refl,
        from,
        below,
        coherent,
        rw (empty, mode, found) refl,
      )
