-- ===== src/Config/DagSort/Edges.antt =====
-- What a graph of groups says: its names and the uses of each (config/utils.go).
use clash_for_android.Prelude.{
  ℕ, suc, ◌+◌, ◌≡◌, sym, true, false, String, str_eq, str_eq_iff, List, [], ◌∷◌, Option, none, some,
  lookup, insert, lookup-insert, if◌then◌else◌, arith, subst, Bool-cases, inl, inr,
}
use clash_for_android.Config.DagSort.{
  ProxyGroup, GraphNode, Graph, count_proxy, count_node, count_proxies,
}

-- How often a name stands in a list.
abbrev pub times : String → List String → ℕ
times x [] = 0
times x (p ∷ ps) = let n = times x ps in if str_eq p x then suc n else n

module _ {M : Type 0} where
  -- How often the groups name a proxy.
  abbrev pub uses : String → List (ProxyGroup M) → ℕ
  uses x [] = 0
  uses x (g ∷ gs) = times x g.1.proxies + uses x gs

  abbrev pub group_named : String → List (ProxyGroup M) → Option (ProxyGroup M)
  group_named x [] = none
  group_named x (g ∷ gs) = if str_eq g.1.name x then some g else group_named x gs

  -- No two groups have one name.
  abbrev pub UniqueNames : List (ProxyGroup M) → Type 0
  UniqueNames [] = Unit {0}
  UniqueNames (g ∷ gs) = (group_named g.1.name gs ≡ none) × UniqueNames gs

  -- A node for a name, with what waits for it and its group.
  abbrev pub NodeAgrees : Option (GraphNode M) → ℕ → Option (ProxyGroup M) → Type 0
  NodeAgrees none degree group = (degree ≡ 0) × (group ≡ none)
  NodeAgrees (some n) degree group = (n.indegree ≡ degree) × (n.group ≡ group)

  abbrev pub Agrees : Graph M → (String → ℕ) → List (ProxyGroup M) → Type 0
  Agrees graph degree gs = (x : String) → NodeAgrees (lookup x graph) (degree x) (group_named x gs)

  pub Agrees-degrees :
      (graph : Graph M) (d e : String → ℕ) (gs : List (ProxyGroup M))
      → ((x : String) → d x ≡ e x)
      → Agrees graph d gs
      → Agrees graph e gs
  Agrees-degrees graph d e gs same h x =
      subst (λ n. NodeAgrees (lookup x graph) n (group_named x gs)) (same x) (h x)

  -- A node set at a name, and the others as they were.
  pub insert-Agrees :
      (p : String) (n : GraphNode M) (graph : Graph M) (d : String → ℕ) (gs : List (ProxyGroup M))
      → NodeAgrees (some n) (d p) (group_named p gs)
      → ((x : String) → str_eq p x ≡ false → NodeAgrees (lookup x graph) (d x) (group_named x gs))
      → Agrees (insert p n graph) d gs
  insert-Agrees p n graph d gs here others x = elim (Bool-cases (str_eq p x)) [
    | inl e ↦
        let same : p ≡ x = ground (arith, str_eq_iff p x) in
        rw (lookup-insert p x n graph, e)
          (subst (λ (y : String). NodeAgrees (some n) (d y) (group_named y gs)) same here)
    | inr e ↦ rw (lookup-insert p x n graph, e) (others x e)
  ]

  count_node-Agrees :
      (o : Option (GraphNode M)) (degree : ℕ) (group : Option (ProxyGroup M))
      → NodeAgrees o degree group
      → NodeAgrees (some (count_node o)) (suc degree) group
  count_node-Agrees none degree group h = (omega (arith, h.0), sym h.1)
  count_node-Agrees (some n) degree group h = (omega (arith, h.0), h.1)

  count_proxy-Agrees :
      (p : String) (graph : Graph M) (d : String → ℕ) (gs : List (ProxyGroup M))
      → Agrees graph d gs
      → Agrees (count_proxy p graph) (λ x. if str_eq p x then suc (d x) else d x) gs
  count_proxy-Agrees p graph d gs h =
      let e = λ (x : String). if str_eq p x then suc (d x) else d x in
      let itself : str_eq p p ≡ true = ground (arith, str_eq_iff p p) in
      insert-Agrees p (count_node (lookup p graph)) graph e gs
        (rw itself (count_node-Agrees (lookup p graph) (d p) (group_named p gs) (h p)))
        (λ x other. rw other (h x))

  pub count_proxies-Agrees :
      (ps : List String) (graph : Graph M) (d : String → ℕ) (gs : List (ProxyGroup M))
      → Agrees graph d gs
      → Agrees (count_proxies ps graph) (λ x. times x ps + d x) gs
  count_proxies-Agrees [] graph d gs h =
      Agrees-degrees graph d (λ x. 0 + d x) gs (λ x. omega arith) h
  count_proxies-Agrees (p ∷ ps) graph d gs h =
      Agrees-degrees (count_proxies ps (count_proxy p graph))
        (λ x. times x ps + (if str_eq p x then suc (d x) else d x)) (λ x. times x (p ∷ ps) + d x) gs
        (λ x. ground arith)
        (count_proxies-Agrees ps (count_proxy p graph) (λ x. if str_eq p x then suc (d x) else d x)
          gs (count_proxy-Agrees p graph d gs h))
