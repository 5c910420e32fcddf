-- ===== src/FakeIp/Pool/Lookup.antt =====
-- A host gets an address that leads back to it (component/fakeip/pool.go).
use clash_for_android.Prelude.{
  lower, ℕ, ◌+◌, ◌≤◌, ◌<◌, ◌≡◌, refl, sym, ◌∙◌, Bool, true, false, ◌||◌, Option, none, some, Bytes,
  bytes_eq, bytes_eq_iff, map, ltb, if◌then◌else◌, ◌==◌, arith, inl, inr, Bool-cases, Option-cases,
}
use clash_for_android.FakeIp.Recency.{find, moved, swapped}
use clash_for_android.FakeIp.Recency.Keys.{find-moved}
use clash_for_android.FakeIp.Base.{
  IpCache, HostCache, Store, ip_of, host_of, get_by_host, get_by_ip, del_by_ip, exist,
}
use clash_for_android.FakeIp.Pool.{Pool, advance, get, lookup, look_back, known_or}
use clash_for_android.FakeIp.Pool.Coherence.{
  Pairs, IsLinked, ip_of-IsLinked, host_of-IsLinked, host_of-found, find-Between,
  get_by_host-IsLinked, get_by_ip-IsLinked,
}
use clash_for_android.FakeIp.Pool.Coherence.Removal.{IsCleared, del_by_ip-IsLinked}
use clash_for_android.FakeIp.Pool.Coherence.Given.{given, given-IsLinked}

module _ (ips : IpCache) (hosts : HostCache) where
  -- The offset is an address of the pool or the one before the first, and the two caches hold the
  -- same pairs in the same order, with addresses of the pool only.
  pub record IsCoherent (p : Pool ips hosts) : Type 0 where
    pub entries : Pairs
    pub linked : IsLinked ips hosts p.first p.last p.store entries
    pub from : p.first ≤ p.offset + 1
    pub below : p.offset < p.last
    pub room : p.first < p.last

  -- What a lookup leaves: the name has the address, which is one of the pool.
  pub record Answered (p : Pool ips hosts) (name : Bytes) (r : ℕ × Pool ips hosts) : Type 0 where
    pub coherent : IsCoherent r.1
    pub known : find bytes_eq name coherent.entries ≡ some r.0
    pub from : p.first ≤ r.0
    pub below : r.0 < p.last

module _ (ips : IpCache) (hosts : HostCache) where
  -- The store in which `get` puts the address.
  abbrev cleared : Bool → ℕ → Store ips hosts → Store ips hosts
  cleared cycle ip s = if cycle || exist ips hosts ip s then del_by_ip ips hosts ip s else s

  cleared-IsLinked :
      (first last : ℕ) (cycle : Bool) (ip : ℕ) (s : Store ips hosts) (es : Pairs)
      → IsLinked ips hosts first last s es
      → (left : Pairs) × IsLinked ips hosts first last (cleared cycle ip s) left
        × IsCleared ips hosts first last ip es left
  unfolding exist
  cleared-IsLinked first last true ip s es l = del_by_ip-IsLinked ips hosts first last s es ip l
  cleared-IsLinked first last false ip s es l = elim (Option-cases (find ◌==◌ ip (swapped es))) [
    | inl e ↦
        rw (host_of-IsLinked ips hosts first last s es ip l ∙ e)
          (es, l, record { gone = e; fewer = λ name h. h })
    | inr (name, e) ↦
        rw (host_of-IsLinked ips hosts first last s es ip l ∙ e)
          (del_by_ip-IsLinked ips hosts first last s es ip l)
  ]

  -- The pool moves on to an address: only the offset and the round change.
  record Moved (p q : Pool ips hosts) : Type 0 where
    first : q.first ≡ p.first
    last : q.last ≡ p.last
    store : q.store ≡ p.store
    from : q.first ≤ q.offset
    below : q.offset < q.last

  advance-Moved :
      (p : Pool ips hosts)
      → p.first ≤ p.offset + 1
      → p.first < p.last
      → Moved p (advance ips hosts p)
  advance-Moved p from room = elim (Bool-cases (ltb (p.offset + 1) p.last)) [
    | inl e ↦
        rw e (record { first = refl; last = refl; store = refl; from = from; below = ground arith })
    | inr e ↦
        rw e (record { first = refl; last = refl; store = refl; from = omega arith; below = room })
  ]

  -- What a pool that has moved on becomes when its address is given away.
  given-Answered :
      (name : Bytes) (p q : Pool ips hosts) (es : Pairs)
      → Moved p q
      → p.first < p.last
      → IsLinked ips hosts p.first p.last p.store es
      → find bytes_eq name es ≡ none
      → Answered ips hosts p name (
        q.offset,
        record q {
          store = given ips hosts p.first p.last q.offset name (cleared q.cycle q.offset q.store);
        },
      )
  given-Answered name p q es m room l new =
      let held : IsLinked ips hosts q.first q.last q.store es = rw (m.first, m.last, m.store) l in
      let (left, cut, c) = cleared-IsLinked q.first q.last q.cycle q.offset q.store es held in
      let (all, done, known) =
        given-IsLinked ips hosts q.first q.last (cleared q.cycle q.offset q.store) left q.offset
          name cut c.gone (c.fewer name new) m.from m.below in
      record {
        coherent = record {
          entries = all;
          linked = done;
          from = omega (arith, m.from);
          below = m.below;
          room = omega (arith, room, m.first, m.last);
        };
        known = known;
        from = omega (arith, m.from, m.first);
        below = omega (arith, m.below, m.last);
      }

  known_or-Answered :
      (name : Bytes) (p : Pool ips hosts) (o : Option ℕ) (es : Pairs)
      → IsLinked ips hosts p.first p.last p.store es
      → p.first ≤ p.offset + 1
      → p.offset < p.last
      → p.first < p.last
      → find bytes_eq name es ≡ o
      → Answered ips hosts p name (known_or ips hosts name p o)
  unfolding get
  known_or-Answered name p none es l from below room e =
      given-Answered name p (advance ips hosts p) es (advance-Moved p from room) room l e
  known_or-Answered name p (some ip) es l from below room e =
      let (a, b) = find-Between ips hosts p.first p.last es name ip e l.in_range in
      record {
        coherent = record { entries = es; linked = l; from = from; below = below; room = room };
        known = e;
        from = a;
        below = b;
      }

  lookup-Answered :
      (host : Bytes) (p : Pool ips hosts)
      → IsCoherent ips hosts p
      → Answered ips hosts p (map lower host) (lookup ips hosts host p)
  unfolding lookup get_by_host
  lookup-Answered host p c =
      let name = map lower host in
      let es = moved bytes_eq name c.entries in
      let l = get_by_host-IsLinked ips hosts p.first p.last p.store c.entries name c.linked in
      let asked =
        find-moved bytes_eq bytes_eq_iff name c.entries c.linked.names
        ∙ sym (ip_of-IsLinked ips hosts p.first p.last p.store c.entries name c.linked) in
      let a =
        known_or-Answered name (record p { store = (get_by_host ips hosts name p.store).1 })
          (ip_of ips hosts name p.store) es l c.from c.below c.room asked in
      record { coherent = a.coherent; known = a.known; from = a.from; below = a.below }

  look_back-fst :
      (ip : ℕ) (p : Pool ips hosts) → (look_back ips hosts ip p).0 ≡ host_of ips hosts ip p.store
  unfolding look_back get_by_ip
  look_back-fst ip p = refl

  look_back-IsCoherent :
      (ip : ℕ) (p : Pool ips hosts)
      → IsCoherent ips hosts p
      → IsCoherent ips hosts (look_back ips hosts ip p).1
  unfolding look_back
  look_back-IsCoherent ip p c =
      let (es, l) = get_by_ip-IsLinked ips hosts p.first p.last p.store c.entries ip c.linked in
      record { entries = es; linked = l; from = c.from; below = c.below; room = c.room }

  -- On a coherent pool, the address that a host gets is one of the pool and leads back to the name
  -- in lower case, and the pool stays coherent after the lookup and after the way back: the two
  -- caches hold the same pairs of a name and an address, in the same order. So it is also when the
  -- pool has come round and takes the address from another name, and when the caches are full and
  -- give up their oldest pair.
  pub look_back-lookup :
      (host : Bytes) (p : Pool ips hosts)
      → IsCoherent ips hosts p
      → ((look_back ips hosts (lookup ips hosts host p).0 (lookup ips hosts host p).1).0
          ≡ some (map lower host))
        × (p.first ≤ (lookup ips hosts host p).0)
        × ((lookup ips hosts host p).0 < p.last)
        × IsCoherent ips hosts (lookup ips hosts host p).1
        × IsCoherent ips hosts
            (look_back ips hosts (lookup ips hosts host p).0 (lookup ips hosts host p).1).1
  look_back-lookup host p c =
      let a = lookup-Answered host p c in
      let (ip, q) = lookup ips hosts host p in
      (
        look_back-fst ip q
            ∙ host_of-found ips hosts q.first q.last q.store a.coherent.entries (map lower host) ip
                a.coherent.linked a.known,
        a.from,
        a.below,
        a.coherent,
        look_back-IsCoherent ip q a.coherent,
      )
