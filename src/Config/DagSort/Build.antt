-- ===== src/Config/DagSort/Build.antt =====
-- The first part of the sort: the graph has the groups and counts their uses (config/utils.go).
use mathlib.Core.List.{Perm, perm_middle}
use mathlib.Core.List.Perm
use clash_for_android.Prelude.{
  ℕ, ◌+◌, ◌≡◌, refl, sym, ◌∙◌, true, String, str_eq, str_eq_iff, List, [], ◌∷◌, ◌++◌, map, Option,
  none, some, lookup, insert, arith, subst, Option-cases, inl, inr, UniqueKeys, insert-UniqueKeys,
  Result, ok, err, Result-cases, All, length,
}
use clash_for_android.Config.DagSort.{
  GroupOption, ProxyGroup, GraphNode, Graph, SortError, count_node, count_proxy, count_proxies,
  with_group, add_option, build,
}
use clash_for_android.Config.DagSort.Edges.{
  uses, group_named, UniqueNames, NodeAgrees, Agrees, insert-Agrees, count_proxies-Agrees,
}

module _ {M : Type 0} where
  -- A group gets its node, if none of the groups has its name.
  set_group-Agrees :
      (g : ProxyGroup M) (n : GraphNode M) (graph : Graph M) (d : String → ℕ)
      (gs : List (ProxyGroup M))
      → n.indegree ≡ d g.1.name
      → n.group ≡ some g
      → Agrees graph d gs
      → Agrees (insert g.1.name n graph) d (g ∷ gs)
  set_group-Agrees g n graph d gs degree group h =
      let itself : str_eq g.1.name g.1.name ≡ true = ground (arith, str_eq_iff g.1.name g.1.name) in
      insert-Agrees g.1.name n graph d (g ∷ gs) (degree, rw itself group)
        (λ x other. rw other (h x))

  count_proxies-UniqueKeys :
      (ps : List String) (graph : Graph M) → UniqueKeys graph → UniqueKeys (count_proxies ps graph)
  count_proxies-UniqueKeys [] graph h = h
  count_proxies-UniqueKeys (p ∷ ps) graph h =
      count_proxies-UniqueKeys ps (count_proxy p graph)
        (insert-UniqueKeys p (count_node (lookup p graph)) graph h)

module _ {M E : Type 0} where
  ok-injective : {A : Type 0} (a b : A) → ◌≡◌ {A = Result (SortError M E) A} (ok a) (ok b) → a ≡ b
  ok-injective a b e = cc

  with_group-ok :
      (g : ProxyGroup M) (graph graph1 : Graph M) (d : String → ℕ) (gs : List (ProxyGroup M))
      (o : Option (GraphNode M))
      → Agrees graph d gs
      → UniqueKeys graph
      → NodeAgrees o (d g.1.name) (group_named g.1.name gs)
      → ◌≡◌ {A = Result (SortError M E) (Graph M)} (with_group g graph o) (ok graph1)
      → (group_named g.1.name gs ≡ none) × Agrees graph1 d (g ∷ gs) × UniqueKeys graph1
  with_group-ok g graph graph1 d gs none h keys here e =
      let n : GraphNode M = record { indegree = 0; group = some g } in
      let made =
        subst (λ x. Agrees x d (g ∷ gs) × UniqueKeys x)
          (ok-injective (insert g.1.name n graph) graph1 e)
          (
            set_group-Agrees g n graph d gs (sym here.0) refl h,
            insert-UniqueKeys g.1.name n graph keys,
          ) in
      (here.1, made.0, made.1)
  with_group-ok g graph graph1 d gs (some n) h keys here e = elim (Option-cases n.group) [
    | inl empty ↦
        let n1 : GraphNode M = record n { group = some g } in
        let e1 = rw empty at e in
        let made =
          subst (λ x. Agrees x d (g ∷ gs) × UniqueKeys x)
            (ok-injective (insert g.1.name n1 graph) graph1 e1)
            (
              set_group-Agrees g n1 graph d gs here.0 refl h,
              insert-UniqueKeys g.1.name n1 graph keys,
            ) in
        (sym here.1 ∙ empty, made.0, made.1)
    | inr (other, taken) ↦ let f = rw taken at e in cc
  ]

-- The graph of some groups, which have the options that are read of their entries.
pub record Built {M E : Type 0} (decode : M → Result E GroupOption) (graph : Graph M)
    (gs : List (ProxyGroup M)) : Type 0 where
  pub agrees : Agrees graph (λ x. uses x gs) gs
  pub names : UniqueNames gs
  pub keys : UniqueKeys graph
  pub decoded : All (λ g. decode g.0 ≡ ok g.1) gs

-- The entries of the configuration.
abbrev pub entries : {M : Type 0} → List (ProxyGroup M) → List M
entries gs = map (λ g. g.0) gs

module _ {M E : Type 0} (decode : M → Result E GroupOption) where
  pub add_option-ok :
      (m : M) (graph graph1 : Graph M) (gs : List (ProxyGroup M)) (r : Result E GroupOption)
      → decode m ≡ r
      → Built decode graph gs
      → ◌≡◌ {A = Result (SortError M E) (Graph M)} (add_option m graph r) (ok graph1)
      → (option : GroupOption) × Built decode graph1 ((m, option) ∷ gs)
  add_option-ok m graph graph1 gs (err x) read h e = cc
  add_option-ok m graph graph1 gs (ok option) read h e =
      let g : ProxyGroup M = (m, option) in
      elim (Result-cases (with_group {E = E} g graph (lookup option.name graph))) [
        | inl (graph2, made) ↦
            let e2 = rw made at e in
            let set =
              with_group-ok g graph graph2 (λ x. uses x gs) gs (lookup option.name graph) h.agrees
                h.keys (h.agrees option.name) made in
            (
              option,
              subst (λ x. Built decode x (g ∷ gs))
                  (ok-injective (count_proxies option.proxies graph2) graph1 e2)
                  (record {
                    agrees =
                        count_proxies-Agrees option.proxies graph2 (λ x. uses x gs) (g ∷ gs) set.1;
                    names = (set.0, h.names);
                    keys = count_proxies-UniqueKeys option.proxies graph2 set.2;
                    decoded = (read, h.decoded);
                  }),
            )
        | inr (x, failed) ↦ let f = rw failed at e in cc
      ]

  pub Built-empty : Built decode [] []
  Built-empty = record { agrees = λ x. (refl, refl); names = tt; keys = tt; decoded = tt }

  -- A graph that is built has all entries.
  pub build-ok :
      (ms : List M) (graph graph1 : Graph M) (gs : List (ProxyGroup M))
      → Built decode graph gs
      → ◌≡◌ {A = Result (SortError M E) (Graph M)} (build decode ms graph) (ok graph1)
      → (all : List (ProxyGroup M)) × Built decode graph1 all
        × Perm (entries all) (ms ++ entries gs)
        × (length all ≡ length ms + length gs)
  unfolding build
  build-ok [] graph graph1 gs h e = (
    gs,
    subst (λ x. Built decode x gs) (ok-injective graph graph1 e) h,
    Perm.refl (entries gs),
    omega arith,
  )
  build-ok (m ∷ ms) graph graph1 gs h e =
      elim (Result-cases (add_option {E = E} m graph (decode m))) [
        | inl (graph2, made) ↦
            let e2 = rw made at e in
            let (option, added) = add_option-ok m graph graph2 gs (decode m) refl h made in
            let (all, built, same, sum) = build-ok ms graph2 graph1 ((m, option) ∷ gs) added e2 in
            (all, built, Perm.trans same (perm_middle ms (entries gs)), omega (arith, sum))
        | inr (x, failed) ↦ let f = rw failed at e in cc
      ]
