-- ===== src/Group/Selector/Choice.antt =====
-- The chosen member of a selector (outboundgroup/selector.go).
use clash_for_android.Prelude.{
  ◌≡◌, sym, ◌∙◌, ap, String, none, some, false, List, [], ◌∷◌, arith, str_eq, str_eq_iff,
  str_eq_refl, In, inl, inr, ok, err, Bool-cases, Option-cases,
}
use clash_for_android.Health.Proxy.{Member}
use clash_for_android.Group.Base.{members, get_proxies}
use clash_for_android.Group.Base.Members.Complete.{Named}
use clash_for_android.Group.Base.Cache.{IsCoherent, visible, get_proxies_lem}
use clash_for_android.Group.Selector.{
  Selector, find_named, selected_proxy, now, set, proxy_not_exist,
}

pub find_named-some :
    (name : String) (ps : List Member) (p : Member)
    → find_named name ps ≡ some p
    → In p ps × (p.name ≡ name)
find_named-some name [] p h = cc
find_named-some name (q ∷ ps) p h =
    ground (arith, find_named-some name ps p, str_eq_iff q.name name)

pub find_named-Named :
    (name : String) (ps : List Member)
    → Named name ps
    → (p : Member) × (find_named name ps ≡ some p) × (p.name ≡ name)
find_named-Named name [] (p, m, e) = absurd m
find_named-Named name (q ∷ ps) (p, inl here, e) =
    (q, rw (← here, e, str_eq_refl), ap (λ (x : Member). x.name) (sym here) ∙ e)
find_named-Named name (q ∷ ps) (p, inr m, e) = elim (Bool-cases (str_eq q.name name)) [
  | inl same ↦ (q, rw same, (str_eq_iff q.name name).0 same)
  | inr other ↦
      let (r, found, e') = find_named-Named name ps (p, m, e) in (r, rw (other, found), e')
]

find_named-none : (name : String) (ps : List Member) → ¬ Named name ps → find_named name ps ≡ none
find_named-none name ps h = elim (Option-cases (find_named name ps)) [
  | inl e ↦ e
  | inr (p, e) ↦ let (m, same) = find_named-some name ps p e in absurd (h (p, m, same))
]

-- The names of a group as a caller sees them.
abbrev pub choices : Member → Selector → List Member
choices compat s = visible compat (members s.group)

module _ (compat : Member) (s : Selector) (coherent : IsCoherent s.group) (name : String) where
  -- A name that a member has is accepted, and the selector then reports it as its current one.
  pub set-member :
      Named name (choices compat s)
      → ((set compat name s).0 ≡ ok tt) × ((now compat (set compat name s).1).0 ≡ some name)
  unfolding set now selected_proxy
  set-member n =
      let (served, coherent', same) = get_proxies_lem compat false s.group coherent in
      let g = (get_proxies compat false s.group).1 in
      let (again, _, _) = get_proxies_lem compat false g coherent' in
      let (p, f, e) = find_named-Named name (choices compat s) n in
      (rw (served, f), rw (served, f, again, same, f, e))

  -- A name that no member has is refused, and the choice stays what it was.
  pub set-missing :
      ¬ Named name (choices compat s)
      → ((set compat name s).0 ≡ err proxy_not_exist)
        × ((set compat name s).1.selected ≡ s.selected)
  unfolding set
  set-missing n =
      let (served, _, _) = get_proxies_lem compat false s.group coherent in
      let f = find_named-none name (choices compat s) n in (rw (served, f), rw (served, f))
