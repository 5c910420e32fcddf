-- ===== src/Config/DagSort/Sorted.antt =====
-- The outcome of the sort (config/utils.go).
use mathlib.Core.List.{Perm, append-nil, perm_append_comm}
use mathlib.Core.List.Perm
use clash_for_android.Prelude.{
  ◌+◌, ◌-◌, ◌==◌, ◌≡◌, ◌≢◌, ◌<◌, refl, sym, ap, ◌∙◌, true, String, str_eq, str_eq_iff, List, [],
  ◌∷◌, ◌++◌, none, some, lookup, size, if◌then◌else◌, arith, subst, Bool-cases, Option-cases,
  none-ne-some, inl, inr, All, In, length, take, Result, ok, err, Result-cases,
}
use clash_for_android.Config.DagSort.{
  GroupOption, ProxyGroup, GraphNode, Graph, SortError, undecodable, duplicate_name, loop_in, roots,
  build, Sorting, when_empty, sort_groups,
}
use clash_for_android.Config.DagSort.Edges.{times, uses, group_named, NodeAgrees}
use clash_for_android.Config.DagSort.Build.{entries, Built, Built-empty, build-ok}
use clash_for_android.Config.DagSort.Failures.{IsTwice, Explains, build-err}
use clash_for_android.Config.DagSort.Turn.{ready, times-roots}
use clash_for_android.Config.DagSort.Groups.{MembersFirst}
use clash_for_android.Config.DagSort.Order.{IsSorting}
use clash_for_android.Config.DagSort.Loop.{sort_loop_lem}

-- The options of the entries, as they are read.
abbrev pub AreOptions : {M E : Type 0} → (M → Result E GroupOption) → List (ProxyGroup M) → Type 0
AreOptions decode gs = All (λ g. decode g.0 ≡ ok g.1) gs

-- Groups each of which is a proxy of one of them.
abbrev pub IsLoop : {M : Type 0} → List (ProxyGroup M) → Type 0
IsLoop {M} gs =
    (gs ≢ [])
    × ((g : ProxyGroup M)
        → In g gs
        → (user : ProxyGroup M) × In user gs × In g.1.name user.1.proxies)

In-times : (x : String) (ps : List String) → 0 < times x ps → In x ps
In-times x [] h = absurd (omega arith)
In-times x (p ∷ ps) h = elim (Bool-cases (str_eq p x)) [
  | inl e ↦ inl (ground (arith, str_eq_iff p x))
  | inr e ↦ inr (In-times x ps (rw e at h))
]

module _ {M : Type 0} where
  In-uses :
      (x : String) (gs : List (ProxyGroup M))
      → 0 < uses x gs
      → (user : ProxyGroup M) × In user gs × In x user.1.proxies
  In-uses x [] h = absurd (omega arith)
  In-uses x (g ∷ gs) h = elim (Bool-cases (times x g.1.proxies == 0)) [
    | inl e ↦ let (user, m, p) = In-uses x gs (ground (arith, e)) in (user, inr m, p)
    | inr e ↦ (g, inl refl, In-times x g.1.proxies (ground (arith, e)))
  ]

  pub group_named-In :
      (g : ProxyGroup M) (gs : List (ProxyGroup M)) → In g gs → group_named g.1.name gs ≢ none
  group_named-In g [] m e = absurd m
  group_named-In g (f ∷ fs) m e = elim (Bool-cases (str_eq f.1.name g.1.name)) [
    | inl same ↦ none-ne-some (rw same at e) refl
    | inr other ↦ elim m [
      | inl here ↦
          let named : f.1.name ≡ g.1.name = ap (λ (k : ProxyGroup M). k.1.name) (sym here) in
          ground (arith, str_eq_iff f.1.name g.1.name, named)
      | inr there ↦ group_named-In g fs there (rw other at e)
    ]
  ]

take-all : {A : Type 0} (xs : List A) → take (length xs) xs ++ [] ≡ xs
take-all [] = refl
take-all (x ∷ xs) = ap (◌∷◌ x) (take-all xs)

-- The order in which the map is gone through has the same names.
abbrev pub IsShuffle : (List String → List String) → Type 0
IsShuffle shuffle = (names : List String) (x : String) → times x (shuffle names) ≡ times x names

module _ {M E : Type 0} (decode : M → Result E GroupOption) (groups : List M) where
  -- What an outcome says of the groups.
  abbrev pub IsSorted : List M → Type 0
  IsSorted sorted =
      (gs : List (ProxyGroup M)) × (entries gs ≡ sorted)
      × AreOptions decode gs
      × MembersFirst gs
      × Perm sorted groups

  abbrev pub HasLoop : Type 0
  HasLoop =
      (gs : List (ProxyGroup M)) × AreOptions decode gs
      × IsLoop gs
      × ((rest : List M) × Perm (entries gs ++ rest) groups)

  IsSorting-start :
      (shuffle : List String → List String) (graph : Graph M) (all : List (ProxyGroup M))
      → IsShuffle shuffle
      → Built decode graph all
      → Perm (entries all) (groups ++ [])
      → length all ≡ length groups + 0
      → IsSorting decode groups
          (record { graph = graph; queue = shuffle (roots graph); sorted = groups; index = 0 })
          all
          []
  IsSorting-start shuffle graph all shuffles h same sum = record {
    agrees = h.agrees;
    queued = λ x. shuffles (roots graph) x ∙ times-roots x graph h.keys;
    names = h.names;
    left_decoded = h.decoded;
    done_decoded = tt;
    done_unused = λ x g e. absurd (none-ne-some refl e);
    members_first = tt;
    array =
        let whole : length groups - 0 ≡ length groups = omega arith in
        sym (rw whole (take-all groups));
    count = refl;
    total = omega (arith, sum);
    kept = subst (λ l. Perm (entries all) l) (append-nil groups) same;
  }

  -- No node is left: all groups are done.
  all_done :
      (s : Sorting M) (left done : List (ProxyGroup M))
      → IsSorting decode groups s left done
      → s.graph ≡ []
      → IsSorted s.sorted
  all_done s [] done h empty =
      let full : length groups - s.index ≡ 0 = omega (arith, h.count, h.total) in
      let written : s.sorted ≡ entries done = h.array ∙ rw full refl in
      (
        done,
        sym written,
        h.done_decoded,
        h.members_first,
        subst (λ l. Perm l groups) (append-nil (entries done) ∙ sym written) h.kept,
      )
  all_done s (g ∷ left) done h empty =
      let at =
        subst
          (λ graph.
            NodeAgrees (lookup g.1.name graph) (uses g.1.name (g ∷ left))
              (group_named g.1.name (g ∷ left)))
          empty (h.agrees g.1.name) in
      absurd (group_named-In g (g ∷ left) (inl refl) at.1)

  missing :
      (s : Sorting M) (left done : List (ProxyGroup M)) (x : String)
      → IsSorting decode groups s left done
      → lookup x s.graph ≡ none
      → group_named x left ≡ none
  missing s left done x h gone =
      let at = subst (λ o. NodeAgrees o (uses x left) (group_named x left)) gone (h.agrees x) in
      at.1

  waits :
      (s : Sorting M) (left done : List (ProxyGroup M)) (x : String)
      → IsSorting decode groups s left done
      → s.queue ≡ []
      → lookup x s.graph ≢ none
      → 0 < uses x left
  waits s left done x h empty there = elim (Option-cases (lookup x s.graph)) [
    | inl gone ↦ absurd (there gone)
    | inr (n, e) ↦
        let at = subst (λ o. NodeAgrees o (uses x left) (group_named x left)) e (h.agrees x) in
        let busy : 0 ≡ (if n.indegree == 0 then 1 else 0) =
          ap (times x) (sym empty) ∙ (h.queued x ∙ ap ready e) in
        ground (arith, busy, at.0)
  ]

  -- Nodes are left, and the queue is empty: each waits for one of them.
  some_left :
      (s : Sorting M) (left done : List (ProxyGroup M)) (name : String) (n : GraphNode M)
      (rest : Graph M)
      → IsSorting decode groups s left done
      → s.queue ≡ []
      → s.graph ≡ (name, n) ∷ rest
      → HasLoop
  some_left s left done name n rest h empty e =
      let itself : str_eq name name ≡ true = ground (arith, str_eq_iff name name) in
      let there : lookup name s.graph ≡ some n =
        ap (λ graph. lookup name graph) e ∙ rw itself refl in
      let first : 0 < uses name left =
        waits s left done name h empty (λ gone. none-ne-some gone there) in
      (
        left,
        h.left_decoded,
        (
          λ none_left. omega (arith, first, ap (uses name) none_left),
          λ g m. In-uses g.1.name left (
              waits s left done g.1.name h empty
                (λ gone. group_named-In g left m (missing s left done g.1.name h gone))),
        ),
        (entries done, Perm.trans (perm_append_comm (entries left) (entries done)) h.kept),
      )

  abbrev pub SortOutcome : Result (SortError M E) (List M) → Type 0
  SortOutcome (ok sorted) = IsSorted sorted
  SortOutcome (err (undecodable e)) = (m : M) × In m groups × (decode m ≡ err e)
  SortOutcome (err (duplicate_name name)) = IsTwice decode name groups
  SortOutcome (err (loop_in graph)) = HasLoop

  outcome_of_err : (e : SortError M E) → Explains decode groups e → SortOutcome (err e)
  outcome_of_err (undecodable e) h = h
  outcome_of_err (duplicate_name name) h = h
  outcome_of_err (loop_in graph) h = absurd h

  when_empty-SortOutcome :
      (graph : Graph M) (s : Sorting M) (left done : List (ProxyGroup M))
      → IsSorting decode groups s left done
      → s.queue ≡ []
      → s.graph ≡ graph
      → SortOutcome (when_empty graph s.sorted)
  when_empty-SortOutcome [] s left done h empty e = all_done s left done h e
  when_empty-SortOutcome (entry ∷ rest) s left done h empty e =
      some_left s left done entry.0 entry.1 rest h empty e

  -- The sort ends without a panic, whatever the order in which a map is gone through. Either it gives
  -- all entries in an order in which no group names itself or one that comes after it; or an entry
  -- cannot be read; or two entries have the name that is reported; or some of the groups, at least
  -- one, are each a proxy of one of them.
  pub sort_groups_lem :
      (shuffle : List String → List String)
      → IsShuffle shuffle
      → (r : Result (SortError M E) (List M)) × (sort_groups decode shuffle groups ≡ some r)
        × SortOutcome r
  unfolding sort_groups
  sort_groups_lem shuffle shuffles = elim (Result-cases (build decode groups [])) [
    | inr (e, failed) ↦ (
      err e,
      rw failed refl,
      outcome_of_err e (build-err decode groups [] [] e [] (Built-empty decode) tt failed),
    )
    | inl (graph, made) ↦
        let (all, built, same, sum) =
          build-ok decode groups [] graph [] (Built-empty decode) made in
        let start : Sorting M = record {
          graph = graph;
          queue = shuffle (roots graph);
          sorted = groups;
          index = 0;
        } in
        let (s, left, done, ends, h, empty) =
          sort_loop_lem decode groups (size graph) start all []
            (IsSorting-start shuffle graph all shuffles built same sum) (omega arith) in
        (
          when_empty s.graph s.sorted,
          rw (made, ends) refl,
          when_empty-SortOutcome s.graph s left done h empty refl,
        )
  ]
