-- ===== src/Group/Base/Members/Complete.antt =====
-- No accepted name is lost by the loops of GetProxies (outboundgroup/groupbase.go): they drop a
-- proxy only for one of the same name.
use clash_for_android.Prelude.{
  ◌≡◌, refl, sym, ◌∙◌, ◌⊎◌, inl, inr, String, Bool, true, false, not, ◌&&◌, ◌||◌, List, [], ◌∷◌,
  ◌++◌, arith, any, keep, ap, In, In-append_left, In-append_right, In-keep_of, Bool-cases, str_eq,
  str_eq_iff, if◌then◌else◌, ltb, length,
}
use clash_for_android.Health.Proxy.{Member}
use clash_for_android.Group.Base.{
  Group, Provider, Filter, Picked, add_unseen, pick_matching, pick_all, gather, reorder, members,
  excluded_name, excluded_type, from_provider,
}
use clash_for_android.Group.Base.Members.{Accepted, LetThrough}

-- A proxy of that name is in the list.
abbrev pub Named : String → List Member → Type 0
Named n ps = (q : Member) × In q ps × (q.name ≡ n)

-- The set of names says no more than the list holds.
record Tracks (acc : Picked) : Type 0 where
  at : (n : String) → any (str_eq n) acc.0 ≡ true → Named n acc.1

module _ (p : Member) (acc : Picked) where
  add_unseen-Named_self : Tracks acc → Named p.name (add_unseen p acc).1
  unfolding add_unseen
  add_unseen-Named_self t = elim (Bool-cases (any (str_eq p.name) acc.0)) [
    | inl seen ↦ rw seen (t.at p.name seen)
    | inr new ↦ rw new (p, In-append_right p acc.1 (p ∷ []) (inl refl), refl)
  ]

  add_unseen-Named : (n : String) → Named n acc.1 → Named n (add_unseen p acc).1
  unfolding add_unseen
  add_unseen-Named n (q, m, e) = elim (Bool-cases (any (str_eq p.name) acc.0)) [
    | inl seen ↦ rw seen (q, m, e)
    | inr new ↦ rw new (q, In-append_left q acc.1 (p ∷ []) m, e)
  ]

  add_unseen-Tracks : Tracks acc → Tracks (add_unseen p acc)
  unfolding add_unseen
  add_unseen-Tracks t = elim (Bool-cases (any (str_eq p.name) acc.0)) [
    | inl seen ↦ rw seen t
    | inr new ↦ rw new (record { at = λ n h. found n (Bool-cases (str_eq n p.name)) h })
  ]
    where
      found :
          (n : String)
          → (str_eq n p.name ≡ true) ⊎ (str_eq n p.name ≡ false)
          → str_eq n p.name || any (str_eq n) acc.0 ≡ true
          → Named n (acc.1 ++ p ∷ [])
      found n (inl e) h =
          (p, In-append_right p acc.1 (p ∷ []) (inl refl), sym ((str_eq_iff n p.name).0 e))
      found n (inr e) h =
          let (q, m, same) = t.at n (ground arith) in (q, In-append_left q acc.1 (p ∷ []) m, same)

-- What a loop over the proxies promises from `acc` to `acc'`.
record Grows (acc acc' : Picked) : Type 0 where
  tracks : Tracks acc → Tracks acc'
  keeps : (n : String) → Named n acc.1 → Named n acc'.1

Grows-refl : (acc : Picked) → Grows acc acc
Grows-refl acc = record { tracks = λ t. t; keeps = λ n h. h }

Grows-trans : {a b c : Picked} → Grows a b → Grows b c → Grows a c
Grows-trans g h = record {
  tracks = λ t. h.tracks (g.tracks t);
  keeps = λ n k. h.keeps n (g.keeps n k);
}

round-Grows :
    (b : Bool) (p : Member) (acc : Picked) → Grows acc (if b then add_unseen p acc else acc)
round-Grows true p acc = record { tracks = add_unseen-Tracks p acc; keeps = add_unseen-Named p acc }
round-Grows false p acc = Grows-refl acc

round-Named_self :
    (b : Bool) (p : Member) (acc : Picked)
    → Tracks acc
    → b ≡ true
    → Named p.name (if b then add_unseen p acc else acc).1
round-Named_self true p acc t e = add_unseen-Named_self p acc t
round-Named_self false p acc t e = cc

pick_matching-Grows :
    (f : Filter) (ps : List Member) (acc : Picked) → Grows acc (pick_matching f ps acc)
unfolding pick_matching
pick_matching-Grows f [] acc = Grows-refl acc
pick_matching-Grows f (p ∷ ps) acc =
    Grows-trans (round-Grows (f p.name) p acc)
      (pick_matching-Grows f ps (if f p.name then add_unseen p acc else acc))

pick_matching-Named :
    (f : Filter) (ps : List Member) (acc : Picked) (q : Member)
    → Tracks acc
    → In q ps
    → f q.name ≡ true
    → Named q.name (pick_matching f ps acc).1
unfolding pick_matching
pick_matching-Named f [] acc q t m ok = absurd m
pick_matching-Named f (p ∷ ps) acc q t (inl e) ok =
    let acc' = if f p.name then add_unseen p acc else acc in
    rw e (
      (pick_matching-Grows f ps acc').keeps p.name
        (round-Named_self (f p.name) p acc t (rw e at ok)))
pick_matching-Named f (p ∷ ps) acc q t (inr m) ok =
    pick_matching-Named f ps (if f p.name then add_unseen p acc else acc) q
      ((round-Grows (f p.name) p acc).tracks t) m ok

pick_all-Grows :
    (fs : List Filter) (ps : List Member) (acc : Picked) → Grows acc (pick_all fs ps acc)
unfolding pick_all
pick_all-Grows [] ps acc = Grows-refl acc
pick_all-Grows (f ∷ fs) ps acc =
    Grows-trans (pick_matching-Grows f ps acc) (pick_all-Grows fs ps (pick_matching f ps acc))

pick_all-Named :
    (fs : List Filter) (ps : List Member) (acc : Picked) (q : Member)
    → Tracks acc
    → In q ps
    → Accepted fs q
    → Named q.name (pick_all fs ps acc).1
unfolding pick_all
pick_all-Named [] ps acc q t m ok = cc
pick_all-Named (f ∷ fs) ps acc q t m ok = elim (Bool-cases (f q.name)) [
  | inl here ↦
      (pick_all-Grows fs ps (pick_matching f ps acc)).keeps q.name
        (pick_matching-Named f ps acc q t m here)
  | inr there ↦
      pick_all-Named fs ps (pick_matching f ps acc) q ((pick_matching-Grows f ps acc).tracks t) m
        (ground arith)
]

Tracks-empty : Tracks ([], [])
Tracks-empty = record { at = λ n h. cc }

from_provider-Named :
    (fs : List Filter) (pd : Provider) (q : Member)
    → LetThrough fs pd q
    → Named q.name (from_provider fs pd)
from_provider-Named [] pd q (m, _) = (q, m, refl)
from_provider-Named (f ∷ fs) pd q (m, why) = elim (Bool-cases pd.compatible) [
  | inl whole ↦ rw whole (q, m, refl)
  | inr filtered ↦
      rw filtered (pick_all-Named (f ∷ fs) pd.proxies ([], []) q Tracks-empty m (ground arith))
]

gather-Named :
    (fs : List Filter) (pds : List Provider) (pd : Provider) (q : Member)
    → In pd pds
    → LetThrough fs pd q
    → Named q.name (gather fs pds)
unfolding gather
gather-Named fs [] pd q m h = absurd m
gather-Named fs (x ∷ pds) pd q (inl e) h =
    let (r, i, same) = from_provider-Named fs pd q h in
    (r, In-append_left r (from_provider fs x) (gather fs pds) (rw (← e) i), same)
gather-Named fs (x ∷ pds) pd q (inr m) h =
    let (r, i, same) = gather-Named fs pds pd q m h in
    (r, In-append_right r (from_provider fs x) (gather fs pds) i, same)

reorder-Named : (g : Group) (ps : List Member) (q : Member) → In q ps → Named q.name (reorder g ps)
unfolding reorder
reorder-Named g ps q m =
    elim (Bool-cases (ltb 1 (length g.providers) && ltb 1 (length g.filter_regs))) [
      | inl many ↦
          let acc = pick_all g.filter_regs ps ([], []) in
          rw many (
            pick_matching-Named (λ _. true) ps acc q
              ((pick_all-Grows g.filter_regs ps ([], [])).tracks Tracks-empty) m refl)
      | inr few ↦ rw few (q, m, refl)
    ]

Named-keep :
    (n : String) (f : Member → Bool) (ps : List Member)
    → Named n ps
    → ((q : Member) → q.name ≡ n → f q ≡ true)
    → Named n (keep f ps)
Named-keep n f ps (q, m, e) h = (q, In-keep_of q f ps m (h q e), e)

-- In a group that excludes no types, each name of a provider's proxy which the filters let through
-- and the exclusions do not reject is the name of a member.
pub members_complete :
    (g : Group) (pd : Provider) (q : Member)
    → g.exclude_types ≡ []
    → In pd g.providers
    → LetThrough g.filter_regs pd q
    → excluded_name g q ≡ false
    → Named q.name (members g)
unfolding members excluded_name excluded_type
members_complete g pd q no_types m h kept =
    let (r, i, e) = gather-Named g.filter_regs g.providers pd q m h in
    let (s, j, e') = reorder-Named g (gather g.filter_regs g.providers) r i in
    Named-keep q.name _
      (keep (λ p. not (excluded_name g p)) (reorder g (gather g.filter_regs g.providers)))
      (Named-keep q.name _ (reorder g (gather g.filter_regs g.providers)) (s, j, e' ∙ e)
        (λ x same.
          ap (λ (n : String). not (any (λ (reg : Filter). reg n) g.exclude_filter_regs)) same
          ∙ ap not kept))
      (λ x same. rw no_types)
