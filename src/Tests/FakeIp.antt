-- ===== src/Tests/FakeIp.antt =====
-- Tests of the fake-IP pool.
use clash_for_android.Prelude.{
  ℕ, ◌≤◌, ◌<◌, ◌≡◌, refl, Bool, false, some, Bytes, bytes_eq, ◌==◌, codes, List, [],
}
use clash_for_android.FakeIp.Recency.{find, moved, removed, put_recent}
use clash_for_android.FakeIp.Base.{pool_size, Lru, IpCache, HostCache, Store}
use clash_for_android.FakeIp.Pool.{Pool, lookup, look_back, new}
use clash_for_android.FakeIp.Pool.Lookup.{IsCoherent, look_back-lookup}
use clash_for_android.FakeIp.Pool.Fresh.{IsEmpty, new-IsCoherent}

-- A cache that is the list of its entries.
abbrev pub list_cache : (K V : Type 0) (same : K → K → Bool) (capacity : ℕ) → Lru K V same capacity
list_cache K V same capacity = record {
  Cache = List (K × V);
  entries = λ c. c;
  get = λ k c. find same k c;
  touch = λ k c. moved same k c;
  set = λ k v c. put_recent same capacity k v c;
  delete = λ k c. removed same k c;
  clear = λ c. [];
  get-entries = λ k c. refl;
  entries-touch = λ k c. refl;
  entries-set = λ k v c. refl;
  entries-delete = λ k c. refl;
  entries-clear = λ c. refl;
}

abbrev pub ips : IpCache
ips = list_cache Bytes ℕ bytes_eq pool_size

abbrev pub hosts : HostCache
hosts = list_cache ℕ Bytes ◌==◌ pool_size

abbrev pub empty : Store ips hosts
empty = record { cache_ip = []; cache_host = [] }

-- 198.18.0.1/29: three addresses besides the network, the gateway and the reserved ones.
abbrev pub pool : Pool ips hosts
pool = record {
  gateway = 3323068417;
  first = 3323068420;
  last = 3323068423;
  offset = 3323068419;
  cycle = false;
  store = empty;
}

pub pool-new : new ips hosts 32 3323068417 29 empty ≡ some pool
unfolding new
pool-new = refl

pub empty-IsEmpty : IsEmpty ips hosts empty
empty-IsEmpty = record { no_ip = refl; no_host = refl }

look_back-lookup_example :
    ((look_back ips hosts
        (lookup ips hosts (codes "Example.org") pool).0
        (lookup ips hosts (codes "Example.org") pool).1).0
      ≡ some (codes "example.org"))
    × (3323068420 ≤ (lookup ips hosts (codes "Example.org") pool).0)
    × ((lookup ips hosts (codes "Example.org") pool).0 < 3323068423)
    × IsCoherent ips hosts (lookup ips hosts (codes "Example.org") pool).1
    × IsCoherent ips hosts
        (look_back ips hosts
          (lookup ips hosts (codes "Example.org") pool).0
          (lookup ips hosts (codes "Example.org") pool).1).1
look_back-lookup_example =
    look_back-lookup ips hosts (codes "Example.org") pool
      (new-IsCoherent ips hosts 32 3323068417 29 empty pool empty-IsEmpty pool-new)
