-- ===== src/Routing/PreHandle.antt =====
-- clash/tunnel/tunnel.go: the host of a connection to an address, before the rules see it.
pub mod FakeHost
use clash_for_android.Prelude.{
  ℕ, Bool, true, false, ◌&&◌, Option, none, some, List, [], ◌∷◌, Bytes, bytes_eq, if◌then◌else◌,
}
use clash_for_android.FakeIp.Base.{IpCache, HostCache}
use clash_for_android.Trie.Node.{Node}
use clash_for_android.Dns.Enhancer.{
  Addr, MappingCache, Enhancer, DnsMode, dns_mapping, dns_fake_ip, fake_ip_enabled, mapping_enabled,
  is_fake_ip, find_host_by_ip,
}
use clash_for_android.Dns.Hosts.{HostValue, search_hosts, rand_ip}

-- The part of C.Metadata that is read and written here.
pub record Destination : Type 0 where
  pub host : Bytes
  pub dst_ip : Option Addr
  pub dns_mode : DnsMode

-- The connection, or the error that the record of its fake address is missing.
pub data Handled : Type 0 where
  handled : Destination → Handled
  missing_record : Addr → Handled

-- The hosts of the configuration and of the system, the random index, and the fuel of the search.
pub record HostTable : Type 0 where
  pub fuel : ℕ
  pub table : Node HostValue
  pub system : Bytes → Option HostValue
  pub rand : List Addr → ℕ

abbrev pub in_table : HostTable → Bytes → Bool → Option (Option HostValue × Bool)
in_table t domain is_domain = search_hosts t.fuel t.system t.table domain is_domain

-- A name that stands for another one.
abbrev pub renamed : Destination → Option (Option HostValue × Bool) → Option Handled
renamed m none = none
renamed m (some (some value, true)) = some (handled (record m { host = value.domain }))
renamed m (some (some value, false)) = some (handled m)
renamed m (some (none, b)) = some (handled m)

-- The hosts of a name that an address was resolved from.
abbrev pub redirected : HostTable → Destination → Option (Option HostValue × Bool) → Option Handled
redirected t m none = none
redirected t m (some (some value, true)) =
    some (handled (record m { dst_ip = rand_ip t.rand value }))
redirected t m (some (some value, false)) =
    some (handled (if value.is_domain then record m { host = value.domain } else m))
redirected t m (some (none, b)) = some (handled m)

module _ (ips : IpCache) (hosts : HostCache) (mappings : MappingCache) where
  abbrev pub beside :
      Enhancer ips hosts mappings
      → Option Handled
      → Option (Handled × Option (Enhancer ips hosts mappings))
  beside e none = none
  beside e (some h) = some (h, some e)

  -- What is known of the address.
  abbrev pub with_host :
      HostTable
      → Destination
      → Addr
      → Option Bytes × Enhancer ips hosts mappings
      → Option (Handled × Option (Enhancer ips hosts mappings))
  with_host t m ip (some host, e) =
      let faked = record m { host = host; dst_ip = none; dns_mode = dns_fake_ip } in
      let named = record m { host = host; dns_mode = dns_mapping } in
      beside e (
        if fake_ip_enabled ips hosts mappings e
        then some (handled faked)
        else redirected t named (in_table t host false))
  with_host t m ip (none, e) =
      some (if is_fake_ip ips hosts mappings ip e then missing_record ip else handled m, some e)

  abbrev pub by_name :
      HostTable
      → Destination
      → Option (Enhancer ips hosts mappings)
      → Option Handled
      → Option (Handled × Option (Enhancer ips hosts mappings))
  by_name t m mapper none = none
  by_name t m mapper (some h) = some (h, mapper)

  -- `needLookupIP`, with the address and the mapper that are then there.
  abbrev pub need_lookup_ip :
      Destination
      → Option (Enhancer ips hosts mappings)
      → Option Addr
      → Option (Addr × Enhancer ips hosts mappings)
  need_lookup_ip m none ip = none
  need_lookup_ip m (some e) none = none
  need_lookup_ip m (some e) (some ip) =
      if mapping_enabled ips hosts mappings e && bytes_eq m.host [] then some (ip, e) else none

  abbrev pub looked_up :
      HostTable
      → Destination
      → Option (Enhancer ips hosts mappings)
      → Option (Addr × Enhancer ips hosts mappings)
      → Option (Handled × Option (Enhancer ips hosts mappings))
  looked_up t m mapper (some (ip, e)) = with_host t m ip (find_host_by_ip ips hosts mappings ip e)
  looked_up t m mapper none = by_name t m mapper (renamed m (in_table t m.host true))

  -- `preHandleMetadata`, with the mapper after it; `none` is a search of the hosts that needs more
  -- fuel.
  unfoldable pub pre_handle_metadata :
      HostTable
      → Destination
      → Option (Enhancer ips hosts mappings)
      → Option (Handled × Option (Enhancer ips hosts mappings))
  unfolding fake_ip_enabled mapping_enabled is_fake_ip find_host_by_ip search_hosts rand_ip
  pre_handle_metadata t m mapper = looked_up t m mapper (need_lookup_ip m mapper m.dst_ip)
