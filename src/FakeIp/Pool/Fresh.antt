-- ===== src/FakeIp/Pool/Fresh.antt =====
-- A pool that has given out nothing (`New` and `FlushFakeIP` of component/fakeip/pool.go).
use clash_for_android.Prelude.{
  ℕ, ◌+◌, ◌-◌, ◌%◌, ◌^◌, ◌≤◌, ◌<◌, ◌≡◌, refl, Bool, true, false, some, arith, [], subst, ltb,
}
use mathlib.Core.Option.{some-injective}
use clash_for_android.FakeIp.Base.{IpCache, HostCache, Store, flush_fake_ip}
use clash_for_android.FakeIp.Pool.{Pool, flush, new, made}
use clash_for_android.FakeIp.Pool.Lookup.{IsCoherent}

module _ (ips : IpCache) (hosts : HostCache) where
  -- The store holds nothing.
  pub record IsEmpty (s : Store ips hosts) : Type 0 where
    pub no_ip : ips.entries s.cache_ip ≡ []
    pub no_host : hosts.entries s.cache_host ≡ []

module _ (ips : IpCache) (hosts : HostCache) where
  empty-IsCoherent :
      (p : Pool ips hosts)
      → IsEmpty ips hosts p.store
      → p.first ≤ p.offset + 1
      → p.offset < p.last
      → p.first < p.last
      → IsCoherent ips hosts p
  empty-IsCoherent p e from below room = record {
    entries = [];
    linked = record {
      ip_entries = e.no_ip;
      host_entries = e.no_host;
      names = tt;
      addresses = tt;
      in_range = tt;
    };
    from = from;
    below = below;
    room = room;
  }

  -- A pool that has been flushed is coherent, starts again, and gives no address back.
  pub flush-IsCoherent :
      (p : Pool ips hosts)
      → p.first < p.last
      → IsCoherent ips hosts (flush ips hosts p) × IsEmpty ips hosts (flush ips hosts p).store
  unfolding flush flush_fake_ip
  flush-IsCoherent p room =
      let empty : IsEmpty ips hosts (flush ips hosts p).store = record {
        no_ip = ips.entries-clear p.store.cache_ip;
        no_host = hosts.entries-clear p.store.cache_host;
      } in
      (empty-IsCoherent (flush ips hosts p) empty (omega arith) (omega arith) room, empty)

  made-IsCoherent :
      (base last : ℕ) (s : Store ips hosts) (b : Bool) (p : Pool ips hosts)
      → IsEmpty ips hosts s
      → ltb (base + 4) last ≡ b
      → made ips hosts base last s b ≡ some p
      → IsCoherent ips hosts p
  made-IsCoherent base last s false p empty lt e = cc
  made-IsCoherent base last s true p empty lt e =
      subst (IsCoherent ips hosts) (some-injective _ _ e)
        (empty-IsCoherent _ empty (omega arith) (ground arith) (ground arith))

  -- A pool that `New` makes over an empty store is coherent.
  pub new-IsCoherent :
      (width address bits : ℕ) (s : Store ips hosts) (p : Pool ips hosts)
      → IsEmpty ips hosts s
      → new ips hosts width address bits s ≡ some p
      → IsCoherent ips hosts p
  unfolding new
  new-IsCoherent width address bits s p empty e =
      let size = 2 ^ (width - bits) in
      let base = address - address % size in
      made-IsCoherent base (base + size - 1) s (ltb (base + 4) (base + size - 1)) p empty refl e
