-- ===== src/FakeIp/Pool.antt =====
-- component/fakeip/pool.go, over the store in memory.
pub mod Coherence
pub mod Lookup
pub mod Fresh
use clash_for_android.Prelude.{
  lower, ℕ, ◌+◌, ◌-◌, ◌%◌, ◌^◌, Bool, true, false, not, ◌||◌, ◌&&◌, Option, none, some, Bytes, map,
  ltb, leb, ◌==◌, if◌then◌else◌,
}
use clash_for_android.FakeIp.Base.{
  IpCache, HostCache, Store, get_by_host, put_by_host, get_by_ip, put_by_ip, del_by_ip, exist,
  flush_fake_ip,
}

module _ (ips : IpCache) (hosts : HostCache) where
  pub record Pool : Type 0 where
    pub gateway : ℕ
    pub first : ℕ
    pub last : ℕ
    pub offset : ℕ
    pub cycle : Bool
    pub store : Store ips hosts

  -- The next address, and whether the pool is in a further round.
  abbrev pub advance : Pool → Pool
  advance p =
      if ltb (p.offset + 1) p.last
      then record p { offset = p.offset + 1 }
      else record p { cycle = true; offset = p.first }

  -- `get`
  unfoldable pub get : Bytes → Pool → ℕ × Pool
  unfolding del_by_ip put_by_ip exist
  get host p =
      let p' = advance p in
      let s =
        if p'.cycle || exist ips hosts p'.offset p'.store
        then del_by_ip ips hosts p'.offset p'.store
        else p'.store in
      (p'.offset, record p' { store = put_by_ip ips hosts p'.offset host s })

  abbrev pub allocated : Bytes → ℕ × Pool → ℕ × Pool
  allocated host (ip, p) = (ip, record p { store = put_by_host ips hosts host ip p.store })

  abbrev pub known_or : Bytes → Pool → Option ℕ → ℕ × Pool
  known_or host p (some ip) = (ip, p)
  known_or host p none = allocated host (get host p)

  -- `Lookup`
  unfoldable pub lookup : Bytes → Pool → ℕ × Pool
  unfolding get get_by_host put_by_host
  lookup host p =
      let name = map lower host in
      let (found, s) = get_by_host ips hosts name p.store in
      known_or name (record p { store = s }) found

  -- `LookBack`
  unfoldable pub look_back : ℕ → Pool → Option Bytes × Pool
  unfolding get_by_ip
  look_back ip p = let (host, s) = get_by_ip ips hosts ip p.store in (host, record p { store = s })

  -- `FlushFakeIP` of a pool in memory, which never fails. The address before the first is a valid
  -- one.
  unfoldable pub flush : Pool → Pool
  unfolding flush_fake_ip
  flush p = record p {
    store = flush_fake_ip ips hosts p.store;
    cycle = false;
    offset = p.first - 1;
  }

  abbrev pub made : ℕ → ℕ → Store ips hosts → Bool → Option Pool
  made base last s false = none
  made base last s true = some (record {
    gateway = base + 1;
    first = base + 4;
    last = last;
    offset = base + 3;
    cycle = false;
    store = s;
  })

  -- `New` without persistence, for a valid prefix of `bits` bits of an address of `width` bits;
  -- `s` is the new store.
  unfoldable pub new : ℕ → ℕ → ℕ → Store ips hosts → Option Pool
  new width address bits s =
      let size = 2 ^ (width - bits) in
      let base = address - address % size in
      let last = base + size - 1 in made base last s (ltb (base + 4) last)
