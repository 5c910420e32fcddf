-- ===== src/Group/Base/Cache.antt =====
-- The cache of GetProxies (outboundgroup/groupbase.go) under the providers' updates.
use clash_for_android.Prelude.{
  ℕ, zero, suc, ◌+◌, ◌^◌, ◌≤◌, ◌<◌, ◌≡◌, ◌≢◌, refl, sym, ◌∙◌, ap, Bool, true, false, List, [], ◌∷◌,
  ◌++◌, map, arith, length, Bool-cases, inl, inr, bytes_eq, bytes_eq_iff, All, cons-injective,
}
use clash_for_android.Health.Proxy.{Member}
use clash_for_android.Group.Base.{
  Group, Provider, Filter, touch, touch_provider, gather, members, versions, get_proxies,
  set_proxies, update_provider, cached_or, cached_proxies, from_provider,
}

-- What a caller is to see: the members, or COMPATIBLE if there are none.
abbrev pub visible : Member → List Member → List Member
visible compat [] = compat ∷ []
visible compat (p ∷ ps) = p ∷ ps

-- Cached versions lag behind the current ones, or nothing is cached.
abbrev pub Behind : List ℕ → List ℕ → Type 0
Behind [] ws = Unit
Behind (v ∷ vs) [] = ⊥
Behind (v ∷ vs) (w ∷ ws) = (v ≤ w) × Behind vs ws

pub record IsCoherent (g : Group) : Type 0 where
  pub some_provider : 0 < length g.providers
  pub behind : Behind g.provider_versions (versions g.providers)
  pub fresh : g.provider_versions ≡ versions g.providers → g.provider_proxies ≡ members g
  pub non_empty : g.provider_versions ≢ [] → g.provider_proxies ≢ []

gather-touch :
    (fs : List Filter) (pds : List Provider) → gather fs (map touch_provider pds) ≡ gather fs pds
unfolding gather touch_provider
gather-touch fs [] = refl
gather-touch [] (pd ∷ pds) = ap (λ r. pd.proxies ++ r) (gather-touch [] pds)
gather-touch (f ∷ fs) (pd ∷ pds) =
    ap (λ r. from_provider (f ∷ fs) pd ++ r) (gather-touch (f ∷ fs) pds)

versions-touch : (pds : List Provider) → versions (map touch_provider pds) ≡ versions pds
unfolding touch_provider
versions-touch [] = refl
versions-touch (pd ∷ pds) = ap (◌∷◌ pd.version) (versions-touch pds)

length-touch : (pds : List Provider) → length (map touch_provider pds) ≡ length pds
length-touch [] = refl
length-touch (pd ∷ pds) = ap suc (length-touch pds)

members-touch : (g : Group) → members (touch g) ≡ members g
unfolding members touch
members-touch g = rw (gather-touch, length-touch)

touch-IsCoherent : (g : Group) → IsCoherent g → IsCoherent (touch g)
unfolding touch
touch-IsCoherent g c = record {
  some_provider = rw length-touch c.some_provider;
  behind = rw versions-touch c.behind;
  fresh = λ e. c.fresh (e ∙ versions-touch g.providers) ∙ sym (members-touch g);
  non_empty = c.non_empty;
}

Behind-refl : (vs : List ℕ) → Behind vs vs
Behind-refl [] = tt
Behind-refl (v ∷ vs) = (omega arith, Behind-refl vs)

visible_of_ne : (compat : Member) (ps : List Member) → ps ≢ [] → ps ≡ visible compat ps
visible_of_ne compat [] h = absurd (h refl)
visible_of_ne compat (p ∷ ps) h = refl

versions-ne : (pds : List Provider) → 0 < length pds → versions pds ≢ []
versions-ne [] h = absurd (omega arith)
versions-ne (pd ∷ pds) h = λ e. cc

-- What one call promises of the list that it returns and of the group that it leaves.
abbrev pub Served : Member → Group → List Member × Group → Type 0
Served compat g r = (r.0 ≡ visible compat (members g)) × IsCoherent r.1 × (members r.1 ≡ members g)

cached_or-Served :
    (compat : Member) (g : Group) (ms : List Member)
    → IsCoherent g
    → ms ≡ members g
    → Served compat g (cached_or compat (versions g.providers) ms g)
unfolding members
cached_or-Served compat g [] c e = (rw (← e), c, refl)
cached_or-Served compat g (p ∷ ps) c e = (
  rw (← e),
  record {
    some_provider = c.some_provider;
    behind = Behind-refl (versions g.providers);
    fresh = λ _. e;
    non_empty = λ _ z. cc;
  },
  refl,
)

cached_proxies-Served :
    (compat : Member) (g : Group) → IsCoherent g → Served compat g (cached_proxies compat g)
unfolding cached_proxies
cached_proxies-Served compat g c =
    elim (Bool-cases (bytes_eq (versions g.providers) g.provider_versions)) [
      | inl hit ↦
          let same = sym ((bytes_eq_iff (versions g.providers) g.provider_versions).0 hit) in
          let full = c.non_empty (rw same (versions-ne g.providers c.some_provider)) in
          rw hit (
            visible_of_ne compat g.provider_proxies full ∙ ap (visible compat) (c.fresh same),
            c,
            refl,
          )
      | inr miss ↦ rw miss (cached_or-Served compat g (members g) c refl)
    ]

-- On a coherent group a call of GetProxies, touching or not, returns the current members, or
-- COMPATIBLE if there are none: the cache never shows and the list is never empty. The group stays
-- coherent and keeps its members.
pub get_proxies_lem :
    (compat : Member) (touching : Bool) (g : Group)
    → IsCoherent g
    → Served compat g (get_proxies compat touching g)
unfolding get_proxies
get_proxies_lem compat false g c = cached_proxies-Served compat g c
get_proxies_lem compat true g c =
    let (e, c', m) = cached_proxies-Served compat (touch g) (touch-IsCoherent g c) in
    (e ∙ ap (visible compat) (members-touch g), c', m ∙ members-touch g)

length-set_proxies :
    (i : ℕ) (ps : List Member) (pds : List Provider) → length (set_proxies i ps pds) ≡ length pds
unfolding set_proxies
length-set_proxies i ps [] = refl
length-set_proxies zero ps (pd ∷ pds) = refl
length-set_proxies (suc i) ps (pd ∷ pds) = ap suc (length-set_proxies i ps pds)

-- The versions have not reached the largest uint32.
abbrev pub NoWrap : List Provider → Type 0
NoWrap = All (λ (pd : Provider). pd.version + 1 < 2 ^ 32)

set_proxies-Behind :
    (i : ℕ) (ps : List Member) (pds : List Provider) (vs : List ℕ)
    → NoWrap pds
    → Behind vs (versions pds)
    → Behind vs (versions (set_proxies i ps pds))
unfolding set_proxies
set_proxies-Behind i ps pds [] w b = tt
set_proxies-Behind i ps [] (v ∷ vs) w b = absurd b
set_proxies-Behind zero ps (pd ∷ pds) (v ∷ vs) (w, ws) (b, bs) = (omega arith, bs)
set_proxies-Behind (suc i) ps (pd ∷ pds) (v ∷ vs) (w, ws) (b, bs) =
    (b, set_proxies-Behind i ps pds vs ws bs)

set_proxies-stale :
    (i : ℕ) (ps : List Member) (pds : List Provider) (vs : List ℕ)
    → NoWrap pds
    → i < length pds
    → Behind vs (versions pds)
    → vs ≢ versions (set_proxies i ps pds)
unfolding set_proxies
set_proxies-stale i ps [] vs w h b = absurd (omega arith)
set_proxies-stale zero ps (pd ∷ pds) [] w h b = λ e. cc
set_proxies-stale zero ps (pd ∷ pds) (v ∷ vs) (w, ws) h (b, bs) =
    λ e. let (same, _) = cons-injective v _ vs _ e in omega arith
set_proxies-stale (suc i) ps (pd ∷ pds) [] w h b = λ e. cc
set_proxies-stale (suc i) ps (pd ∷ pds) (v ∷ vs) (w, ws) h (b, bs) =
    λ e. set_proxies-stale i ps pds vs ws (omega arith) bs (cons-injective v _ vs _ e).1

-- New proxies for a provider of a coherent group leave the group coherent, as long as no version
-- wraps round: the cache is then out of date, and the next call sees it.
pub update_provider-IsCoherent :
    (i : ℕ) (ps : List Member) (g : Group)
    → NoWrap g.providers
    → i < length g.providers
    → IsCoherent g
    → IsCoherent (update_provider i ps g)
unfolding update_provider
update_provider-IsCoherent i ps g w h c = record {
  some_provider = rw length-set_proxies c.some_provider;
  behind = set_proxies-Behind i ps g.providers g.provider_versions w c.behind;
  fresh = λ e. absurd (set_proxies-stale i ps g.providers g.provider_versions w h c.behind e);
  non_empty = c.non_empty;
}
