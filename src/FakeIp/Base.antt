-- ===== src/FakeIp/Base.antt =====
-- component/fakeip/memory.go: two caches, from hosts to addresses and back. The cache is that of
-- common/lru, a copy of another library: an argument that keeps its entries from the least recent to
-- the most recent one, and gives the least recent one up when there are too many.
use clash_for_android.Prelude.{
  ℕ, ◌<◌, ◌≡◌, Bool, true, false, List, [], Option, none, some, Bytes, bytes_eq, ◌==◌, arith,
}
use clash_for_android.FakeIp.Recency.{find, moved, removed, put_recent}

-- `get` without its effect on the order, which is `touch`. The laws say what each operation does
-- to the entries.
pub record Lru (K : Type 0) (V : Type 0) (same : K → K → Bool) (capacity : ℕ) : Type 1 where
  pub Cache : Type 0
  pub entries : Cache → List (K × V)
  pub get : K → Cache → Option V
  pub touch : K → Cache → Cache
  pub set : K → V → Cache → Cache
  pub delete : K → Cache → Cache
  pub clear : Cache → Cache
  pub get-entries : (k : K) (c : Cache) → get k c ≡ find same k (entries c)
  pub entries-touch : (k : K) (c : Cache) → entries (touch k c) ≡ moved same k (entries c)
  pub entries-set :
      (k : K) (v : V) (c : Cache) → entries (set k v c) ≡ put_recent same capacity k v (entries c)
  pub entries-delete : (k : K) (c : Cache) → entries (delete k c) ≡ removed same k (entries c)
  pub entries-clear : (c : Cache) → entries (clear c) ≡ []

-- The size of both caches of a pool that is not kept in a file.
unfoldable pub pool_size : ℕ
pool_size = 1000

pub pool_size-positive : 0 < pool_size
unfolding pool_size
pool_size-positive = omega arith

abbrev pub IpCache : Type 1
IpCache = Lru Bytes ℕ bytes_eq pool_size

abbrev pub HostCache : Type 1
HostCache = Lru ℕ Bytes ◌==◌ pool_size

module _ (ips : IpCache) (hosts : HostCache) where
  -- `memoryStore`
  pub record Store : Type 0 where
    pub cache_ip : ips.Cache
    pub cache_host : hosts.Cache

  abbrev pub ip_of : Bytes → Store → Option ℕ
  ip_of host s = ips.get host s.cache_ip

  abbrev pub host_of : ℕ → Store → Option Bytes
  host_of ip s = hosts.get ip s.cache_host

  abbrev seen_ip : Store → Option ℕ → Store
  seen_ip s none = s
  seen_ip s (some ip) = record s { cache_host = hosts.touch ip s.cache_host }

  -- `GetByHost`, with the store after it.
  unfoldable pub get_by_host : Bytes → Store → Option ℕ × Store
  get_by_host host s =
      (ip_of host s, seen_ip (record s { cache_ip = ips.touch host s.cache_ip }) (ip_of host s))

  unfoldable pub put_by_host : Bytes → ℕ → Store → Store
  put_by_host host ip s = record s { cache_ip = ips.set host ip s.cache_ip }

  abbrev seen_host : Store → Option Bytes → Store
  seen_host s none = s
  seen_host s (some host) = record s { cache_ip = ips.touch host s.cache_ip }

  -- `GetByIP`, with the store after it.
  unfoldable pub get_by_ip : ℕ → Store → Option Bytes × Store
  get_by_ip ip s = (
    host_of ip s,
    seen_host (record s { cache_host = hosts.touch ip s.cache_host }) (host_of ip s),
  )

  unfoldable pub put_by_ip : ℕ → Bytes → Store → Store
  put_by_ip ip host s = record s { cache_host = hosts.set ip host s.cache_host }

  abbrev pub drop_host : Store → Option Bytes → Store
  drop_host s none = s
  drop_host s (some host) = record s { cache_ip = ips.delete host s.cache_ip }

  -- `DelByIP`
  unfoldable pub del_by_ip : ℕ → Store → Store
  del_by_ip ip s =
      let s' = drop_host (record s { cache_host = hosts.touch ip s.cache_host }) (host_of ip s) in
      record s' { cache_host = hosts.delete ip s'.cache_host }

  abbrev pub is_some : {A : Type 0} → Option A → Bool
  is_some none = false
  is_some (some a) = true

  -- `Exist`
  unfoldable pub exist : ℕ → Store → Bool
  exist ip s = is_some (host_of ip s)

  -- `FlushFakeIP`
  unfoldable pub flush_fake_ip : Store → Store
  flush_fake_ip s = record {
    cache_ip = ips.clear s.cache_ip;
    cache_host = hosts.clear s.cache_host;
  }
