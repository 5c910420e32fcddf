-- ===== src/Dns/Enhancer.antt =====
-- dns/enhancer.go, and the mapper of component/resolver/enhancer.go that may be missing.
use clash_for_android.Prelude.{
  ℕ, ◌-◌, Bool, true, false, not, ◌&&◌, Option, none, some, Bytes, leb, ◌==◌,
}
use clash_for_android.FakeIp.Base.{Lru, IpCache, HostCache, exist}
use clash_for_android.FakeIp.Pool.{Pool, look_back, flush}

pub data DnsMode : Type 0 where
  dns_normal dns_fake_ip dns_mapping dns_hosts : DnsMode

-- A valid netip.Addr; the zero value is `none` of an option.
pub data Addr : Type 0 where
  addr_4 addr_6 : ℕ → Addr

abbrev pub addr_eq : Addr → Addr → Bool
addr_eq (addr_4 a) (addr_4 b) = a == b
addr_eq (addr_6 a) (addr_6 b) = a == b
addr_eq _ _ = false

abbrev pub is_fake_mode : DnsMode → Bool
is_fake_mode dns_fake_ip = true
is_fake_mode _ = false

abbrev pub is_mapping_mode : DnsMode → Bool
is_mapping_mode dns_fake_ip = true
is_mapping_mode dns_mapping = true
is_mapping_mode _ = false

abbrev pub mapping_size : ℕ
mapping_size = 4096

abbrev pub MappingCache : Type 1
MappingCache = Lru Addr Bytes addr_eq mapping_size

module _ (ips : IpCache) (hosts : HostCache) (mappings : MappingCache) where
  -- `ResolverEnhancer`. The pools are those that the middleware allocates from. `fake_ip_pool` holds
  -- addresses of four bytes, `fake_ip_pool_6` those of sixteen.
  pub record Enhancer : Type 0 where
    pub mode : DnsMode
    pub fake_ip_pool : Option (Pool ips hosts)
    pub fake_ip_pool_6 : Option (Pool ips hosts)
    pub mapping : Option mappings.Cache

  unfoldable pub fake_ip_enabled : Enhancer → Bool
  fake_ip_enabled e = is_fake_mode e.mode

  unfoldable pub mapping_enabled : Enhancer → Bool
  mapping_enabled e = is_mapping_mode e.mode

  -- The number of an address, if it is of the pool's family.
  abbrev pub of_4 : Addr → Option ℕ
  of_4 (addr_4 a) = some a
  of_4 (addr_6 a) = none

  abbrev pub of_6 : Addr → Option ℕ
  of_6 (addr_4 a) = none
  of_6 (addr_6 a) = some a

  -- The prefix of a pool goes from the address before the gateway to the last one.
  abbrev pub is_usable : Pool ips hosts → Option ℕ → Bool
  is_usable p none = false
  is_usable p (some a) =
      leb (p.gateway - 1) a && leb a p.last && not (a == p.gateway) && not (a == p.last)

  abbrev pub exists_in : Pool ips hosts → Option ℕ → Bool
  exists_in p none = false
  exists_in p (some a) = exist ips hosts a p.store

  -- What is asked of the first pool that is there.
  abbrev pub ask_pools :
      (Pool ips hosts → Option ℕ → Bool)
      → Addr
      → Option (Pool ips hosts)
      → Option (Pool ips hosts)
      → Bool
  ask_pools test ip (some p) other = test p (of_4 ip)
  ask_pools test ip none (some p) = test p (of_6 ip)
  ask_pools test ip none none = false

  -- `IsExistFakeIP`
  unfoldable pub is_exist_fake_ip : Addr → Enhancer → Bool
  unfolding fake_ip_enabled
  is_exist_fake_ip ip e =
      fake_ip_enabled e && ask_pools exists_in ip e.fake_ip_pool e.fake_ip_pool_6

  -- `IsFakeIP`
  unfoldable pub is_fake_ip : Addr → Enhancer → Bool
  unfolding fake_ip_enabled
  is_fake_ip ip e = fake_ip_enabled e && ask_pools is_usable ip e.fake_ip_pool e.fake_ip_pool_6

  -- `LookBack` of a pool; an address of the other family has no entry.
  abbrev pub look_back_in : Option ℕ → Pool ips hosts → Option Bytes × Pool ips hosts
  look_back_in none p = (none, p)
  look_back_in (some a) p = look_back ips hosts a p

  abbrev pub in_pool : Addr → Option (Pool ips hosts) → Enhancer → Option Bytes × Enhancer
  in_pool ip none e = (none, e)
  in_pool ip (some p) e =
      let (host, p') = look_back_in (of_4 ip) p in (host, record e { fake_ip_pool = some p' })

  abbrev pub in_pool_6 : Addr → Option (Pool ips hosts) → Enhancer → Option Bytes × Enhancer
  in_pool_6 ip none e = (none, e)
  in_pool_6 ip (some p) e =
      let (host, p') = look_back_in (of_6 ip) p in (host, record e { fake_ip_pool_6 = some p' })

  abbrev pub in_mapping : Addr → Option mappings.Cache → Enhancer → Option Bytes × Enhancer
  in_mapping ip none e = (none, e)
  in_mapping ip (some c) e = (mappings.get ip c, record e { mapping = some (mappings.touch ip c) })

  -- The host if there is one, and what comes next otherwise.
  abbrev pub or_next :
      (Enhancer → Option Bytes × Enhancer) → Option Bytes × Enhancer → Option Bytes × Enhancer
  or_next next (some host, e) = (some host, e)
  or_next next (none, e) = next e

  -- `FindHostByIP`, with the enhancer after it.
  unfoldable pub find_host_by_ip : Addr → Enhancer → Option Bytes × Enhancer
  unfolding look_back
  find_host_by_ip ip e =
      or_next (λ e''. in_mapping ip e''.mapping e'')
        (or_next (λ e'. in_pool_6 ip e'.fake_ip_pool_6 e') (in_pool ip e.fake_ip_pool e))

  abbrev pub set_mapping : Addr → Bytes → Option mappings.Cache → Option mappings.Cache
  set_mapping ip host none = none
  set_mapping ip host (some c) = some (mappings.set ip host c)

  -- `InsertHostByIP`
  unfoldable pub insert_host_by_ip : Addr → Bytes → Enhancer → Enhancer
  insert_host_by_ip ip host e = record e { mapping = set_mapping ip host e.mapping }

  abbrev pub flush_first : Enhancer → Option (Pool ips hosts) → Option (Pool ips hosts) → Enhancer
  flush_first e (some p) other = record e { fake_ip_pool = some (flush ips hosts p) }
  flush_first e none (some p) = record e { fake_ip_pool_6 = some (flush ips hosts p) }
  flush_first e none none = e

  -- `FlushFakeIP`
  unfoldable pub flush_fake_ips : Enhancer → Enhancer
  flush_fake_ips e = flush_first e e.fake_ip_pool e.fake_ip_pool_6
