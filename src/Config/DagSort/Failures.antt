-- ===== src/Config/DagSort/Failures.antt =====
-- What the errors of the first part of the sort say (config/utils.go).
use mathlib.Core.List.{append_assoc}
use clash_for_android.Prelude.{
  ℕ, ◌≡◌, refl, sym, ◌∙◌, String, List, [], ◌∷◌, ◌++◌, Option, none, some, lookup, subst,
  Option-cases, inl, inr, All, In, In-append_left, In-append_right, Result, ok, err, Result-cases,
}
use clash_for_android.Config.DagSort.{
  GroupOption, ProxyGroup, GraphNode, Graph, SortError, undecodable, duplicate_name, loop_in,
  with_group, add_option, build,
}
use clash_for_android.Config.DagSort.Edges.{uses, group_named, NodeAgrees}
use clash_for_android.Config.DagSort.Build.{Built, add_option-ok}
use clash_for_android.Config.DagSort.Groups.{group_named-name, group_named-All}

module _ {M E : Type 0} (decode : M → Result E GroupOption) where
  -- Two entries have the name.
  abbrev pub IsTwice : String → List M → Type 0
  IsTwice name groups =
      (before : List M) × (m : M) × (after : List M) × (option : GroupOption) × (g : ProxyGroup M)
      × (groups ≡ before ++ (m ∷ after))
      × (decode m ≡ ok option)
      × (option.name ≡ name)
      × In g.0 before
      × (decode g.0 ≡ ok g.1)
      × (g.1.name ≡ name)

  -- Why a graph is not built.
  abbrev pub Explains : List M → SortError M E → Type 0
  Explains groups (undecodable e) = (m : M) × In m groups × (decode m ≡ err e)
  Explains groups (duplicate_name name) = IsTwice name groups
  Explains groups (loop_in graph) = ⊥

  with_group-err :
      (g : ProxyGroup M) (graph : Graph M) (x : SortError M E) (d : ℕ) (o : Option (GraphNode M))
      (other : Option (ProxyGroup M))
      → NodeAgrees o d other
      → ◌≡◌ {A = Result (SortError M E) (Graph M)} (with_group g graph o) (err x)
      → (f : ProxyGroup M) × (other ≡ some f) × (x ≡ duplicate_name g.1.name)
  with_group-err g graph x d none other h e = cc
  with_group-err g graph x d (some n) other h e = elim (Option-cases n.group) [
    | inl empty ↦ let f = rw empty at e in cc
    | inr (f, taken) ↦ let r = rw taken at e in (f, sym h.1 ∙ taken, cc)
  ]

  add_option-err :
      (m : M) (graph : Graph M) (gs : List (ProxyGroup M)) (x : SortError M E)
      (r : Result E GroupOption) (before after : List M)
      → decode m ≡ r
      → Built decode graph gs
      → All (λ g. In g.0 before) gs
      → ◌≡◌ {A = Result (SortError M E) (Graph M)} (add_option m graph r) (err x)
      → Explains (before ++ (m ∷ after)) x
  add_option-err m graph gs x (err y) before after read h seen e =
      let same : x ≡ undecodable y = cc in
      subst (Explains (before ++ (m ∷ after))) (sym same)
        (m, In-append_right m before (m ∷ after) (inl refl), read)
  add_option-err m graph gs x (ok option) before after read h seen e =
      elim (Result-cases (with_group {E = E} (m, option) graph (lookup option.name graph))) [
        | inl (graph2, made) ↦ let f = rw made at e in cc
        | inr (y, failed) ↦
            let same : y ≡ x = let f = rw failed at e in cc in
            let (f, named, twice) =
              with_group-err (m, option) graph y (uses option.name gs) (lookup option.name graph)
                (group_named option.name gs) (h.agrees option.name) failed in
            subst (Explains (before ++ (m ∷ after))) (sym twice ∙ same) (
              before,
              m,
              after,
              option,
              f,
              refl,
              read,
              refl,
              group_named-All (λ g. In g.0 before) option.name gs f named seen,
              group_named-All (λ g. decode g.0 ≡ ok g.1) option.name gs f named h.decoded,
              group_named-name option.name gs f named,
            )
      ]

  All-widen :
      (m : M) (before : List M) (gs : List (ProxyGroup M))
      → All (λ g. In g.0 before) gs
      → All (λ g. In g.0 (before ++ (m ∷ []))) gs
  All-widen m before [] h = tt
  All-widen m before (g ∷ gs) h =
      (In-append_left g.0 before (m ∷ []) h.0, All-widen m before gs h.1)

  pub build-err :
      (ms : List M) (graph : Graph M) (gs : List (ProxyGroup M)) (x : SortError M E)
      (before : List M)
      → Built decode graph gs
      → All (λ g. In g.0 before) gs
      → ◌≡◌ {A = Result (SortError M E) (Graph M)} (build decode ms graph) (err x)
      → Explains (before ++ ms) x
  unfolding build
  build-err [] graph gs x before h seen e = cc
  build-err (m ∷ ms) graph gs x before h seen e =
      elim (Result-cases (add_option {E = E} m graph (decode m))) [
        | inl (graph2, made) ↦
            let e2 = rw made at e in
            let (option, added) = add_option-ok decode m graph graph2 gs (decode m) refl h made in
            subst (λ l. Explains l x) (append_assoc before (m ∷ []) ms)
              (build-err ms graph2 ((m, option) ∷ gs) x (before ++ (m ∷ [])) added
                (In-append_right m before (m ∷ []) (inl refl), All-widen m before gs seen) e2)
        | inr (y, failed) ↦
            let same : y ≡ x = let f = rw failed at e in cc in
            subst (Explains (before ++ (m ∷ ms))) same
              (add_option-err m graph gs y (decode m) before ms refl h seen failed)
      ]
