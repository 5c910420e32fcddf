-- ===== src/Config/DagSort/Loop.antt =====
-- The loop of the sort ends, with an empty queue (config/utils.go).
use clash_for_android.Prelude.{
  ℕ, zero, suc, ◌≡◌, ◌≤◌, ◌<◌, refl, sym, ap, ◌∙◌, String, List, [], ◌∷◌, Option, some, lookup,
  delete, size, size-delete, arith, subst, Option-cases, ◌⊎◌, inl, inr, Result,
}
use clash_for_android.Config.DagSort.{
  GroupOption, ProxyGroup, GraphNode, Sorting, take_node, sort_loop,
}
use clash_for_android.Config.DagSort.Edges.{times, uses, group_named, NodeAgrees}
use clash_for_android.Config.DagSort.Turn.{Queued, pop_lem}
use clash_for_android.Config.DagSort.Groups.{removed}
use clash_for_android.Config.DagSort.Order.{IsSorting, take_group, take_proxy}

List-cases : {A : Type 0} (xs : List A) → (xs ≡ []) ⊎ ((x : A) × (rest : List A) × (xs ≡ x ∷ rest))
List-cases [] = inl refl
List-cases (x ∷ xs) = inr (x, xs, refl)

module _ {M E : Type 0} (decode : M → Result E GroupOption) (groups : List M) where
  -- Where a part of the loop gets to from a graph of some size.
  abbrev pub Reaches : Option (Sorting M) → (Sorting M → Type 0) → Type 0
  Reaches o P =
      (s1 : Sorting M) × (left1 : List (ProxyGroup M)) × (done1 : List (ProxyGroup M)) × (o
        ≡ some s1)
      × IsSorting decode groups s1 left1 done1
      × P s1

  popped :
      (s : Sorting M) (left done : List (ProxyGroup M)) (name : String) (rest : List String)
      → IsSorting decode groups s left done
      → s.queue ≡ name ∷ rest
      → (n : GraphNode M) × (lookup name s.graph ≡ some n)
        × (n.indegree ≡ 0)
        × Queued name s.graph rest
  popped s left done name rest h e =
      pop_lem name rest s.graph (λ x. ap (times x) (sym e) ∙ h.queued x)

  turn_lem :
      (s : Sorting M) (left done : List (ProxyGroup M)) (name : String) (rest : List String)
      → IsSorting decode groups s left done
      → s.queue ≡ name ∷ rest
      → Reaches
          (take_node name (record s { queue = rest }) (lookup name s.graph))
          (λ s1. size s1.graph < size s.graph)
  turn_lem s left done name rest h e =
      let (n, there, zero_degree, queued) = popped s left done name rest h e in
      let at =
        subst (λ o. NodeAgrees o (uses name left) (group_named name left)) there (h.agrees name) in
      let free : uses name left ≡ 0 = sym at.0 ∙ zero_degree in
      elim (Option-cases n.group) [
        | inl nobody ↦
            let kept =
              take_proxy decode groups s left done name rest n h there queued free
                (sym at.1 ∙ nobody) in
            (
              record s { graph = delete name s.graph; queue = rest },
              left,
              done,
              rw (there, nobody) refl,
              kept.0,
              kept.1,
            )
        | inr (g, owner) ↦
            let got =
              take_group decode groups s left done h name g (sym at.1 ∙ owner) free rest n there
                queued in
            (got.0, removed name left, g ∷ done, rw (there, owner) got.1, got.2, got.3)
      ]

  pub sort_loop_lem :
      (fuel : ℕ) (s : Sorting M) (left done : List (ProxyGroup M))
      → IsSorting decode groups s left done
      → size s.graph ≤ fuel
      → Reaches (sort_loop fuel s) (λ s1. s1.queue ≡ [])
  unfolding sort_loop
  sort_loop_lem zero s left done h bound = elim (List-cases s.queue) [
    | inl empty ↦ (s, left, done, rw empty refl, h, empty)
    | inr (name, rest, e) ↦
        let (n, there, zero_degree, queued) = popped s left done name rest h e in
        absurd (omega (arith, size-delete name n s.graph there))
  ]
  sort_loop_lem (suc fuel) s left done h bound = elim (List-cases s.queue) [
    | inl empty ↦ (s, left, done, rw empty refl, h, empty)
    | inr (name, rest, e) ↦
        let (s1, left1, done1, taken, h1, smaller) = turn_lem s left done name rest h e in
        let (s2, left2, done2, ends, h2, empty) =
          sort_loop_lem fuel s1 left1 done1 h1 (omega (arith, smaller)) in
        (s2, left2, done2, rw (e, taken) ends, h2, empty)
  ]
