-- ===== src/FakeIp/Pool/Coherence/Removal.antt =====
-- The removal of an address from the store (`DelByIP` of component/fakeip/memory.go).
use clash_for_android.Prelude.{
  ℕ, ◌≡◌, sym, ◌∙◌, ap, none, Bytes, bytes_eq, bytes_eq_iff, ◌==◌, ==_iff, inl, inr, Option-cases,
  subst,
}
use clash_for_android.FakeIp.Recency.{find, removed, moved, Distinct, swapped}
use clash_for_android.FakeIp.Recency.Keys.{
  removed-none, find-removed_same, find-removed-none, removed-Distinct, removed-All, removed-moved,
}
use clash_for_android.FakeIp.Recency.Turned.{removed-swapped}
use clash_for_android.FakeIp.Base.{IpCache, HostCache, Store, del_by_ip}
use clash_for_android.FakeIp.Pool.Coherence.{Pairs, Between, IsLinked, host_of-IsLinked, found_back}

module _ (ips : IpCache) (hosts : HostCache) (first last : ℕ) where
  -- The pairs without that of an address.
  pub record IsCleared (ip : ℕ) (es left : Pairs) : Type 0 where
    pub gone : find ◌==◌ ip (swapped left) ≡ none
    pub fewer : (name : Bytes) → find bytes_eq name es ≡ none → find bytes_eq name left ≡ none

  pub del_by_ip-IsLinked :
      (s : Store ips hosts) (es : Pairs) (ip : ℕ)
      → IsLinked ips hosts first last s es
      → (left : Pairs) × IsLinked ips hosts first last (del_by_ip ips hosts ip s) left
        × IsCleared ip es left
  unfolding del_by_ip
  del_by_ip-IsLinked s es ip l =
      let used = hosts.entries-touch ip s.cache_host ∙ ap (moved ◌==◌ ip) l.host_entries in
      let cut : hosts.entries (hosts.delete ip (hosts.touch ip s.cache_host))
          ≡ removed ◌==◌ ip (swapped es) =
        hosts.entries-delete ip (hosts.touch ip s.cache_host)
        ∙ (ap (removed ◌==◌ ip) used ∙ removed-moved ◌==◌ ==_iff ip (swapped es) l.addresses) in
      elim (Option-cases (find ◌==◌ ip (swapped es))) [
        | inl e ↦ (
          es,
          rw (host_of-IsLinked ips hosts first last s es ip l ∙ e) (record {
            ip_entries = l.ip_entries;
            host_entries = cut ∙ removed-none ◌==◌ ==_iff ip (swapped es) e;
            names = l.names;
            addresses = l.addresses;
            in_range = l.in_range;
          }),
          record { gone = e; fewer = λ name h. h },
        )
        | inr (name, e) ↦
            let found = found_back ips hosts first last s es name ip l e in
            let turned =
              removed-swapped bytes_eq bytes_eq_iff ◌==◌ ==_iff name ip es l.addresses found in
            (
              removed bytes_eq name es,
              rw (host_of-IsLinked ips hosts first last s es ip l ∙ e) (record {
                ip_entries =
                    ips.entries-delete name s.cache_ip ∙ ap (removed bytes_eq name) l.ip_entries;
                host_entries = cut ∙ sym turned;
                names = removed-Distinct bytes_eq bytes_eq_iff name es l.names;
                addresses =
                    subst (Distinct ◌==◌) (sym turned)
                      (removed-Distinct ◌==◌ ==_iff ip (swapped es) l.addresses);
                in_range =
                    removed-All bytes_eq bytes_eq_iff (Between first last) name es l.in_range;
              }),
              record {
                gone =
                    ap (find ◌==◌ ip) turned
                    ∙ find-removed_same ◌==◌ ==_iff ip (swapped es) l.addresses;
                fewer = λ other h. find-removed-none bytes_eq bytes_eq_iff other name es h;
              },
            )
      ]
