-- ===== src/FakeIp/Pool/Coherence/Given.antt =====
-- The two caches when a name gets an address (component/fakeip/memory.go).
use clash_for_android.Prelude.{
  ℕ, ◌≡◌, ◌≤◌, ◌<◌, refl, sym, ◌∙◌, ap, [], ◌∷◌, ◌++◌, none, some, Bytes, bytes_eq, bytes_eq_iff,
  ◌==◌, ==_iff, subst,
}
use clash_for_android.FakeIp.Recency.{
  find, Distinct, trimmed, put_recent, swapped, swapped-append, swapped-trimmed, append-All,
  trimmed-All,
}
use clash_for_android.FakeIp.Recency.Keys.{snoc-Distinct, trimmed-Distinct, find-trimmed_snoc}
use clash_for_android.FakeIp.Base.{
  IpCache, HostCache, Store, pool_size, pool_size-positive, put_by_host, put_by_ip,
}
use clash_for_android.FakeIp.Pool.Coherence.{Pairs, Between, IsLinked}

module _ (ips : IpCache) (hosts : HostCache) (first last : ℕ) where
  -- The store after an address that has no name is given to a name that has no address: where the
  -- caches are full, both give up the same pair.
  abbrev pub given : ℕ → Bytes → Store ips hosts → Store ips hosts
  given ip name s = put_by_host ips hosts name ip (put_by_ip ips hosts ip name s)

  pub given-IsLinked :
      (s : Store ips hosts) (es : Pairs) (ip : ℕ) (name : Bytes)
      → IsLinked ips hosts first last s es
      → find ◌==◌ ip (swapped es) ≡ none
      → find bytes_eq name es ≡ none
      → first ≤ ip
      → ip < last
      → (left : Pairs) × IsLinked ips hosts first last (given ip name s) left
        × (find bytes_eq name left ≡ some ip)
  unfolding put_by_host put_by_ip
  given-IsLinked s es ip name l free new from below =
      let all = es ++ ((name, ip) ∷ []) in
      let turned : swapped (trimmed pool_size all)
          ≡ trimmed pool_size (swapped es ++ ((ip, name) ∷ [])) =
        swapped-trimmed pool_size all
        ∙ ap (trimmed pool_size) (swapped-append es ((name, ip) ∷ [])) in
      (
        trimmed pool_size all,
        record {
          ip_entries =
              ips.entries-set name ip s.cache_ip
              ∙ (ap (put_recent bytes_eq pool_size name ip) l.ip_entries ∙ rw new refl);
          host_entries =
              hosts.entries-set ip name s.cache_host
              ∙ (ap (put_recent ◌==◌ pool_size ip name) l.host_entries ∙ (rw free (sym turned)));
          names =
              trimmed-Distinct bytes_eq bytes_eq_iff pool_size all
                (snoc-Distinct bytes_eq bytes_eq_iff name ip es new l.names);
          addresses = subst (Distinct ◌==◌) (sym turned) (
              trimmed-Distinct ◌==◌ ==_iff pool_size (swapped es ++ ((ip, name) ∷ []))
                (snoc-Distinct ◌==◌ ==_iff ip name (swapped es) free l.addresses));
          in_range =
              trimmed-All (Between first last) pool_size all (
                append-All (Between first last) es ((name, ip) ∷ []) l.in_range
                  ((from, below), tt));
        },
        find-trimmed_snoc bytes_eq bytes_eq_iff pool_size name ip es pool_size-positive new,
      )
