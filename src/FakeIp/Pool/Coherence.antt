-- ===== src/FakeIp/Pool/Coherence.antt =====
-- The two caches of the fake-IP pool hold the same pairs in the same order, so that they give up
-- the same ones (component/fakeip/memory.go).
pub mod Removal
pub mod Given
use clash_for_android.Prelude.{
  ℕ, ◌≡◌, ◌≤◌, ◌<◌, refl, sym, ◌∙◌, ap, List, [], ◌∷◌, ◌++◌, none, some, Bytes, bytes_eq,
  bytes_eq_iff, ◌==◌, ==_iff, All, inl, inr, Option-cases, Bool-cases, none-ne-some, subst,
}
use mathlib.Core.Option.{some_inj}
use clash_for_android.FakeIp.Recency.{
  find, removed, moved, Distinct, trimmed, put_recent, swapped, swapped-swapped, swapped-append,
  swapped-trimmed, append-All, trimmed-All,
}
use clash_for_android.FakeIp.Recency.Keys.{
  removed-none, find-removed_same, find-removed-none, removed-Distinct, snoc-Distinct,
  trimmed-Distinct, find-trimmed_snoc, removed-All, moved-Distinct, moved-All, removed-moved,
}
use clash_for_android.FakeIp.Recency.Turned.{find-swapped, removed-swapped, moved-swapped}
use clash_for_android.FakeIp.Base.{
  IpCache, HostCache, Store, ip_of, host_of, pool_size, pool_size-positive, get_by_host, get_by_ip,
  put_by_host, put_by_ip, del_by_ip,
}

abbrev pub Pairs : Type 0
Pairs = List (Bytes × ℕ)

abbrev pub Between : ℕ → ℕ → Bytes × ℕ → Type 0
Between first last e = (first ≤ e.1) × (e.1 < last)

-- The caches hold these pairs of a name and its address, no name and no address twice, and all
-- addresses in a range.
pub record IsLinked (ips : IpCache) (hosts : HostCache) (first last : ℕ) (s : Store ips hosts)
    (es : Pairs) : Type 0 where
  pub ip_entries : ips.entries s.cache_ip ≡ es
  pub host_entries : hosts.entries s.cache_host ≡ swapped es
  pub names : Distinct bytes_eq es
  pub addresses : Distinct ◌==◌ (swapped es)
  pub in_range : All (Between first last) es

module _ (ips : IpCache) (hosts : HostCache) (first last : ℕ) where
  pub ip_of-IsLinked :
      (s : Store ips hosts) (es : Pairs) (name : Bytes)
      → IsLinked ips hosts first last s es
      → ip_of ips hosts name s ≡ find bytes_eq name es
  ip_of-IsLinked s es name l =
      ips.get-entries name s.cache_ip ∙ ap (find bytes_eq name) l.ip_entries

  pub host_of-IsLinked :
      (s : Store ips hosts) (es : Pairs) (ip : ℕ)
      → IsLinked ips hosts first last s es
      → host_of ips hosts ip s ≡ find ◌==◌ ip (swapped es)
  host_of-IsLinked s es ip l = hosts.get-entries ip s.cache_host ∙ ap (find ◌==◌ ip) l.host_entries

  -- A name that has an address leads to it and back.
  pub host_of-found :
      (s : Store ips hosts) (es : Pairs) (name : Bytes) (ip : ℕ)
      → IsLinked ips hosts first last s es
      → find bytes_eq name es ≡ some ip
      → host_of ips hosts ip s ≡ some name
  host_of-found s es name ip l e =
      host_of-IsLinked s es ip l
      ∙ find-swapped bytes_eq bytes_eq_iff ◌==◌ ==_iff name ip es l.addresses e

  -- An address that has a name is the one that the name has.
  pub found_back :
      (s : Store ips hosts) (es : Pairs) (name : Bytes) (ip : ℕ)
      → IsLinked ips hosts first last s es
      → find ◌==◌ ip (swapped es) ≡ some name
      → find bytes_eq name es ≡ some ip
  found_back s es name ip l e =
      subst (λ (x : Pairs). find bytes_eq name x ≡ some ip) (swapped-swapped es)
        (find-swapped ◌==◌ ==_iff bytes_eq bytes_eq_iff ip name (swapped es)
          (subst (Distinct bytes_eq) (sym (swapped-swapped es)) l.names) e)

  pub find-Between :
      (es : Pairs) (name : Bytes) (ip : ℕ)
      → find bytes_eq name es ≡ some ip
      → All (Between first last) es
      → (first ≤ ip) × (ip < last)
  find-Between [] name ip e h = absurd (none-ne-some refl e)
  find-Between (f ∷ es) name ip e h = elim (Bool-cases (bytes_eq f.0 name)) [
    | inl t ↦ subst (λ (x : ℕ). (first ≤ x) × (x < last)) (some_inj.0 (rw t at e)) h.0
    | inr o ↦ find-Between es name ip (rw o at e) h.1
  ]

  -- The store after a pair is used in both caches.
  used-IsLinked :
      (s : Store ips hosts) (es : Pairs) (name : Bytes) (ip : ℕ)
      → IsLinked ips hosts first last s es
      → find bytes_eq name es ≡ some ip
      → IsLinked ips hosts first last
          (record {
            cache_ip = ips.touch name s.cache_ip;
            cache_host = hosts.touch ip s.cache_host;
          })
          (moved bytes_eq name es)
  used-IsLinked s es name ip l e =
      let turned = moved-swapped bytes_eq bytes_eq_iff ◌==◌ ==_iff name ip es l.addresses e in
      record {
        ip_entries = ips.entries-touch name s.cache_ip ∙ ap (moved bytes_eq name) l.ip_entries;
        host_entries =
            hosts.entries-touch ip s.cache_host ∙ (ap (moved ◌==◌ ip) l.host_entries ∙ sym turned);
        names = moved-Distinct bytes_eq bytes_eq_iff name es l.names;
        addresses =
            subst (Distinct ◌==◌) (sym turned)
              (moved-Distinct ◌==◌ ==_iff ip (swapped es) l.addresses);
        in_range =
            moved-All bytes_eq bytes_eq_iff (Between first last) name es
              (λ v f. find-Between es name v f l.in_range) l.in_range;
      }

  -- A question for an address does so too.
  pub get_by_ip-IsLinked :
      (s : Store ips hosts) (es : Pairs) (ip : ℕ)
      → IsLinked ips hosts first last s es
      → (after : Pairs) × IsLinked ips hosts first last (get_by_ip ips hosts ip s).1 after
  unfolding get_by_ip
  get_by_ip-IsLinked s es ip l = elim (Option-cases (find ◌==◌ ip (swapped es))) [
    | inl e ↦ (
      es,
      rw (host_of-IsLinked s es ip l ∙ e) (record {
        ip_entries = l.ip_entries;
        host_entries =
            hosts.entries-touch ip s.cache_host ∙ (ap (moved ◌==◌ ip) l.host_entries ∙ rw e refl);
        names = l.names;
        addresses = l.addresses;
        in_range = l.in_range;
      }),
    )
    | inr (name, e) ↦ (
      moved bytes_eq name es,
      rw (host_of-IsLinked s es ip l ∙ e)
          (used-IsLinked s es name ip l (found_back s es name ip l e)),
    )
  ]

  -- A question for a name makes its pair the most recent one in both caches.
  pub get_by_host-IsLinked :
      (s : Store ips hosts) (es : Pairs) (name : Bytes)
      → IsLinked ips hosts first last s es
      → IsLinked ips hosts first last (get_by_host ips hosts name s).1 (moved bytes_eq name es)
  unfolding get_by_host
  get_by_host-IsLinked s es name l = elim (Option-cases (find bytes_eq name es)) [
    | inl e ↦
        rw (ip_of-IsLinked s es name l ∙ e, e)
          (record {
            ip_entries =
                ips.entries-touch name s.cache_ip
                ∙ (ap (moved bytes_eq name) l.ip_entries ∙ rw e refl);
            host_entries = l.host_entries;
            names = l.names;
            addresses = l.addresses;
            in_range = l.in_range;
          })
    | inr (ip, e) ↦ rw (ip_of-IsLinked s es name l ∙ e) (used-IsLinked s es name ip l e)
  ]
