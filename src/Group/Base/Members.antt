-- ===== src/Group/Base/Members.antt =====
-- What GetProxies gathers: the filters and the exclusions of outboundgroup/groupbase.go.
pub mod Complete
use clash_for_android.Prelude.{
  ℕ, ◌≡◌, refl, ◌⊎◌, inl, inr, String, Bool, true, false, not, ◌&&◌, ◌||◌, List, [], ◌∷◌, ◌++◌,
  arith, any, keep, In, In-append, In-append_left, In-append_right, In-keep, In-keep_of, Bool-cases,
  str_eq, str_eq_iff, if◌then◌else◌, ltb, length,
}
use clash_for_android.Health.Proxy.{Member}
use clash_for_android.Group.Base.{
  Group, Provider, Filter, Picked, add_unseen, pick_matching, pick_all, gather, reorder, members,
  excluded_name, excluded_type, from_provider,
}

-- A filter of the group accepts the proxy's name.
abbrev pub Accepted : List Filter → Member → Type 0
Accepted fs p = any (λ (f : Filter). f p.name) fs ≡ true

add_unseen-In : (p q : Member) (acc : Picked) → In q (add_unseen p acc).1 → In q acc.1 ⊎ (q ≡ p)
unfolding add_unseen
add_unseen-In p q (names, out) h = elim (Bool-cases (any (str_eq p.name) names)) [
  | inl seen ↦ inl (rw seen at h)
  | inr new ↦ at_end (In-append q out (p ∷ []) (rw new at h))
]
  where
    at_end : In q out ⊎ In q (p ∷ []) → In q out ⊎ (q ≡ p)
    at_end (inl m) = inl m
    at_end (inr (inl e)) = inr e
    at_end (inr (inr z)) = absurd z

-- One round of the inner loop.
round-In :
    (b : Bool) (p q : Member) (acc : Picked)
    → In q (if b then add_unseen p acc else acc).1
    → In q acc.1 ⊎ ((q ≡ p) × (b ≡ true))
round-In true p q acc h = ground (arith, add_unseen-In p q acc h)
round-In false p q acc h = inl h

pick_matching-In :
    (f : Filter) (ps : List Member) (acc : Picked) (q : Member)
    → In q (pick_matching f ps acc).1
    → In q acc.1 ⊎ (In q ps × (f q.name ≡ true))
unfolding pick_matching
pick_matching-In f [] acc q h = inl h
pick_matching-In f (p ∷ ps) acc q h =
    let acc' = if f p.name then add_unseen p acc else acc in
    ground (arith, pick_matching-In f ps acc' q h, round-In (f p.name) p q acc)

pick_all-In :
    (fs : List Filter) (ps : List Member) (acc : Picked) (q : Member)
    → In q (pick_all fs ps acc).1
    → In q acc.1 ⊎ (In q ps × Accepted fs q)
unfolding pick_all
pick_all-In [] ps acc q h = inl h
pick_all-In (f ∷ fs) ps acc q h =
    ground (arith, pick_all-In fs ps (pick_matching f ps acc) q h, pick_matching-In f ps acc q)

reorder-In : (g : Group) (ps : List Member) (q : Member) → In q (reorder g ps) → In q ps
unfolding reorder
reorder-In g ps q h =
    elim (Bool-cases (ltb 1 (length g.providers) && ltb 1 (length g.filter_regs))) [
      | inl many ↦
          let acc = pick_all g.filter_regs ps ([], []) in
          ground (
            arith,
            pick_matching-In (λ _. true) ps acc q (rw many at h),
            pick_all-In g.filter_regs ps ([], []) q,
          )
      | inr few ↦ rw few at h
    ]

-- A proxy comes from a provider whose filters let it through.
abbrev pub LetThrough : List Filter → Provider → Member → Type 0
LetThrough fs pd q = In q pd.proxies × ((fs ≡ []) ⊎ (pd.compatible ≡ true) ⊎ Accepted fs q)

from_provider-In :
    (fs : List Filter) (pd : Provider) (q : Member)
    → In q (from_provider fs pd)
    → LetThrough fs pd q
from_provider-In [] pd q h = (h, inl refl)
from_provider-In (f ∷ fs) pd q h = ground (arith, pick_all-In (f ∷ fs) pd.proxies ([], []) q)

gather-In :
    (fs : List Filter) (pds : List Provider) (q : Member)
    → In q (gather fs pds)
    → (pd : Provider) × In pd pds × LetThrough fs pd q
unfolding gather
gather-In fs [] q h = absurd h
gather-In fs (pd ∷ pds) q h =
    pick (In-append q (from_provider fs pd) (gather fs pds) h) (gather-In fs pds q)
  where
    pick :
        In q (from_provider fs pd) ⊎ In q (gather fs pds)
        → (In q (gather fs pds) → (x : Provider) × In x pds × LetThrough fs x q)
        → (x : Provider) × In x (pd ∷ pds) × LetThrough fs x q
    pick (inl m) ih = (pd, inl refl, from_provider-In fs pd q m)
    pick (inr m) ih = let (x, i, t) = ih m in (x, inr i, t)

-- Each member of a group is a proxy of one of its providers which the filters let through (all do
-- if there are no filters or the provider is a compatible one), and neither its name nor its type
-- is excluded.
pub members_sound :
    (g : Group) (q : Member)
    → In q (members g)
    → (excluded_name g q ≡ false)
      × (excluded_type g q ≡ false)
      × ((pd : Provider) × In pd g.providers × LetThrough g.filter_regs pd q)
unfolding members
members_sound g q h =
    let named = reorder g (gather g.filter_regs g.providers) in
    let (m, t) = In-keep q (λ p. not (excluded_type g p)) _ h in
    let (m', n) = In-keep q (λ p. not (excluded_name g p)) named m in
    (ground arith, ground arith, gather-In g.filter_regs g.providers q (reorder-In g _ q m'))
