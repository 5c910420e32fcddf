-- ===== src/Config/DagSort.antt =====
-- config/utils.go: the groups of the configuration in the order in which they depend on each other.
pub mod Edges
pub mod Build
pub mod Turn
pub mod Groups
pub mod Order
pub mod Loop
pub mod Failures
pub mod Sorted
pub mod Impossible
use clash_for_android.Prelude.{
  ℕ, zero, suc, ◌+◌, ◌-◌, ◌==◌, leb, Bool, true, false, String, List, [], ◌∷◌, ◌++◌, Option, none,
  some, Dict, lookup, insert, delete, size, length, if◌then◌else◌, Result, ok, err, ◌>>=◌,
}

-- What the sort reads of a GroupCommonOption.
pub record GroupOption : Type 0 where
  pub name : String
  pub proxies : List String

-- An entry of the configuration with its options.
abbrev pub ProxyGroup : Type 0 → Type 0
ProxyGroup M = M × GroupOption

-- `data` and `option` are set together.
pub record GraphNode (M : Type 0) : Type 0 where
  pub indegree : ℕ
  pub group : Option (ProxyGroup M)

abbrev pub Graph : Type 0 → Type 0
Graph M = Dict (GraphNode M)

pub data SortError (M E : Type 0) : Type 0 where
  undecodable : E → SortError M E
  duplicate_name : String → SortError M E
  loop_in : Graph M → SortError M E

module _ {M : Type 0} where
  -- Step 1.1: a proxy of a group.
  abbrev pub count_node : Option (GraphNode M) → GraphNode M
  count_node none = record { indegree = 1; group = none }
  count_node (some n) = record n { indegree = n.indegree + 1 }

  abbrev pub count_proxy : String → Graph M → Graph M
  count_proxy proxy graph = insert proxy (count_node (lookup proxy graph)) graph

  abbrev pub count_proxies : List String → Graph M → Graph M
  count_proxies [] graph = graph
  count_proxies (p ∷ ps) graph = count_proxies ps (count_proxy p graph)

  abbrev pub with_group :
      {E : Type 0}
      → ProxyGroup M
      → Graph M
      → Option (GraphNode M)
      → Result (SortError M E) (Graph M)
  with_group g graph none = ok (insert g.1.name (record { indegree = 0; group = some g }) graph)
  with_group g graph (some n) = elim n.group [
    | none ↦ ok (insert g.1.name (record n { group = some g }) graph)
    | some other ↦ err (duplicate_name g.1.name)
  ]

  abbrev pub add_option :
      {E : Type 0} → M → Graph M → Result E GroupOption → Result (SortError M E) (Graph M)
  add_option m graph (err e) = err (undecodable e)
  add_option m graph (ok option) = with_group (m, option) graph (lookup option.name graph) >>= λ g.
      ok (count_proxies option.proxies g)

  unfoldable pub build :
      {E : Type 0}
      → (M → Result E GroupOption)
      → List M
      → Graph M
      → Result (SortError M E) (Graph M)
  build decode [] graph = ok graph
  build decode (m ∷ ms) graph = add_option m graph (decode m) >>= build decode ms

  -- Step 1.2: the names of the nodes that nothing waits for.
  abbrev pub roots : Graph M → List String
  roots [] = []
  roots (entry ∷ rest) =
      let names = roots rest in if entry.1.indegree == 0 then entry.0 ∷ names else names

-- The variables of the loop: `sorted` is `groupsConfig`.
pub record Sorting (M : Type 0) : Type 0 where
  pub graph : Graph M
  pub queue : List String
  pub sorted : List M
  pub index : ℕ

abbrev pub set_at : {A : Type 0} → ℕ → A → List A → List A
set_at i a [] = []
set_at zero a (x ∷ xs) = a ∷ xs
set_at (suc i) a (x ∷ xs) = x ∷ set_at i a xs

module _ {M : Type 0} where
  -- A node loses one that waited for it. `none` is a panic; the degree of no node falls below zero.
  abbrev pub release_node :
      String → Graph M × List String → Option (GraphNode M) → Option (Graph M × List String)
  release_node p (graph, queue) none = none
  release_node p (graph, queue) (some n) =
      if n.indegree == 0
      then none
      else some (
        insert p (record n { indegree = n.indegree - 1 }) graph,
        if n.indegree == 1 then queue ++ (p ∷ []) else queue,
      )

  abbrev pub then_release :
      Option (Graph M × List String)
      → (Graph M × List String → Option (Graph M × List String))
      → Option (Graph M × List String)
  then_release none next = none
  then_release (some s) next = next s

  abbrev pub release : List String → Graph M × List String → Option (Graph M × List String)
  release [] s = some s
  release (p ∷ ps) s = then_release (release_node p s (lookup p s.0)) (release ps)

  -- `groupsConfig[len(groupsConfig)-index] = node.data`
  abbrev pub put_group : M → Sorting M → Option (Sorting M)
  put_group m s =
      if leb (length s.sorted) s.index
      then none
      else some (record s {
        sorted = set_at (length s.sorted - (s.index + 1)) m s.sorted;
        index = s.index + 1;
      })

  abbrev pub without : String → Sorting M → Option (Graph M × List String) → Option (Sorting M)
  without name s none = none
  without name s (some (graph, queue)) =
      some (record s { graph = delete name graph; queue = queue })

  abbrev pub release_from : String → List String → Option (Sorting M) → Option (Sorting M)
  release_from name proxies none = none
  release_from name proxies (some s) = without name s (release proxies (s.graph, s.queue))

  abbrev pub take_owned : String → Sorting M → Option (ProxyGroup M) → Option (Sorting M)
  take_owned name s none = some (record s { graph = delete name s.graph })
  take_owned name s (some g) = release_from name g.1.proxies (put_group g.0 s)

  -- A turn of the loop; a group without proxies has nothing to release.
  abbrev pub take_node : String → Sorting M → Option (GraphNode M) → Option (Sorting M)
  take_node name s none = none
  take_node name s (some n) = take_owned name s n.group

  abbrev pub then_sort : Option (Sorting M) → (Sorting M → Option (Sorting M)) → Option (Sorting M)
  then_sort none next = none
  then_sort (some s) next = next s

  abbrev pub sort_turn :
      (Sorting M → Option (Sorting M)) → Sorting M → List String → Option (Sorting M)
  sort_turn next s [] = some s
  sort_turn next s (name ∷ rest) =
      then_sort (take_node name (record s { queue = rest }) (lookup name s.graph)) next

  -- The loop, with fuel for its turns.
  unfoldable pub sort_loop : ℕ → Sorting M → Option (Sorting M)
  sort_loop zero s = sort_turn (λ t. none) s s.queue
  sort_loop (suc fuel) s = sort_turn (sort_loop fuel) s s.queue

  abbrev pub when_empty : {E : Type 0} → Graph M → List M → Result (SortError M E) (List M)
  when_empty [] sorted = ok sorted
  when_empty (entry ∷ rest) sorted = err (loop_in (entry ∷ rest))

  abbrev pub sort_outcome :
      {E : Type 0} → Option (Sorting M) → Option (Result (SortError M E) (List M))
  sort_outcome none = none
  sort_outcome (some s) = some (when_empty s.graph s.sorted)

  abbrev pub sort_graph :
      {E : Type 0}
      → (List String → List String)
      → List M
      → Result (SortError M E) (Graph M)
      → Option (Result (SortError M E) (List M))
  sort_graph shuffle groups (err e) = some (err e)
  sort_graph shuffle groups (ok graph) = sort_outcome (
      sort_loop (size graph)
        (record { graph = graph; queue = shuffle (roots graph); sorted = groups; index = 0 }))

  -- Step 1 of `proxyGroupsDagSort`: `shuffle` is the order in which the map is gone through, and an
  -- error of the kind `loop_in` is what the second step makes a report of.
  unfoldable pub sort_groups :
      {E : Type 0}
      → (M → Result E GroupOption)
      → (List String → List String)
      → List M
      → Option (Result (SortError M E) (List M))
  unfolding build sort_loop
  sort_groups decode shuffle groups = sort_graph shuffle groups (build decode groups [])
