-- ===== src/Config/DagSort/Turn.antt =====
-- The loop of the sort: the queue has the names that nothing waits for (config/utils.go).
use clash_for_android.Prelude.{
  ℕ, suc, ◌+◌, ◌-◌, ◌==◌, ◌≡◌, ◌<◌, refl, sym, ap, ◌∙◌, true, false, String, str_eq, str_eq_iff,
  List, [], ◌∷◌, ◌++◌, Option, none, some, lookup, insert, lookup-insert, delete, lookup-delete,
  size, size-insert, if◌then◌else◌, arith, subst, Bool-cases, Option-cases, inl, inr, UniqueKeys,
}
use clash_for_android.Config.DagSort.{ProxyGroup, GraphNode, Graph, roots, release}
use clash_for_android.Config.DagSort.Edges.{times, group_named, NodeAgrees, Agrees, insert-Agrees}

times-append : (x : String) (ps qs : List String) → times x (ps ++ qs) ≡ times x ps + times x qs
times-append x [] qs = omega arith
times-append x (p ∷ ps) qs = ground (arith, times-append x ps qs)

module _ {M : Type 0} where
  -- Whether a node has nothing that waits for it.
  abbrev pub ready : Option (GraphNode M) → ℕ
  ready none = 0
  ready (some n) = if n.indegree == 0 then 1 else 0

  pub times-roots :
      (x : String) (graph : Graph M)
      → UniqueKeys graph
      → times x (roots graph) ≡ ready (lookup x graph)
  times-roots x [] h = refl
  times-roots x (entry ∷ rest) h = elim (Bool-cases (str_eq entry.0 x)) [
    | inl e ↦
        let same : entry.0 ≡ x = ground (arith, str_eq_iff entry.0 x) in
        let gone : lookup x rest ≡ none = subst (λ (k : String). lookup k rest ≡ none) same h.0 in
        let others : times x (roots rest) ≡ 0 = times-roots x rest h.1 ∙ ap ready gone in
        rw e (ground arith)
    | inr e ↦ rw e (ground (arith, times-roots x rest h.1))
  ]

  -- The queue while a name is taken from the graph.
  abbrev pub Queued : String → Graph M → List String → Type 0
  Queued name graph queue =
      (x : String) → times x queue ≡ (if str_eq name x then 0 else ready (lookup x graph))

  requeue-Queued :
      (name p : String) (graph : Graph M) (queue : List String) (n : GraphNode M)
      → Queued name graph queue
      → str_eq name p ≡ false
      → lookup p graph ≡ some n
      → 0 < n.indegree
      → Queued name
          (insert p (record n { indegree = n.indegree - 1 }) graph)
          (if n.indegree == 1 then queue ++ (p ∷ []) else queue)
  requeue-Queued name p graph queue n h apart there positive x = elim (Bool-cases (str_eq p x)) [
    | inl e ↦
        let same : p ≡ x = ground (arith, str_eq_iff p x) in
        let far : str_eq name x ≡ false =
          subst (λ (y : String). str_eq name y ≡ false) same apart in
        let before : times x queue ≡ 0 =
          h x
          ∙ (rw far (rw (ap (λ (y : String). lookup y graph) (sym same) ∙ there) (ground arith))) in
        rw (lookup-insert p x (record n { indegree = n.indegree - 1 }) graph, e, far)
          (ground (arith, times-append x queue (p ∷ [])))
    | inr e ↦
        rw (lookup-insert p x (record n { indegree = n.indegree - 1 }) graph, e)
          (ground (arith, times-append x queue (p ∷ []), h x))
  ]

  -- What a released graph and its queue are.
  abbrev pub Released :
      String → (String → ℕ) → List (ProxyGroup M) → ℕ → Graph M × List String → Type 0
  Released name u gs nodes s = Agrees s.0 u gs × Queued name s.0 s.1 × (size s.0 ≡ nodes)

  pub release_lem :
      (ps : List String) (name : String) (graph : Graph M) (queue : List String) (u : String → ℕ)
      (gs : List (ProxyGroup M))
      → Agrees graph (λ x. times x ps + u x) gs
      → Queued name graph queue
      → times name ps ≡ 0
      → (s : Graph M × List String) × (release ps (graph, queue) ≡ some s)
        × Released name u gs (size graph) s
  release_lem [] name graph queue u gs h q alone = (
    (graph, queue),
    refl,
    (
      λ x. subst (λ n. NodeAgrees (lookup x graph) n (group_named x gs)) (omega arith) (h x),
      q,
      refl,
    ),
  )
  release_lem (p ∷ ps) name graph queue u gs h q alone =
      let itself : str_eq p p ≡ true = ground (arith, str_eq_iff p p) in
      elim (Option-cases (lookup p graph)) [
        | inl gone ↦
            let at =
              subst (λ o. NodeAgrees o (times p (p ∷ ps) + u p) (group_named p gs)) gone (h p) in
            absurd (ground (arith, at.0))
        | inr (n, there) ↦
            let at =
              subst (λ o. NodeAgrees o (times p (p ∷ ps) + u p) (group_named p gs)) there (h p) in
            let n1 : GraphNode M = record n { indegree = n.indegree - 1 } in
            let queue1 = if n.indegree == 1 then queue ++ (p ∷ []) else queue in
            let apart : str_eq name p ≡ false = ground (arith, str_eq_iff name p) in
            let more : n.indegree ≡ suc (times p ps + u p) = ground (arith, at.0) in
            let left =
              insert-Agrees p n1 graph (λ x. times x ps + u x) gs (omega (arith, more), at.1)
                (λ x other.
                  subst (λ k. NodeAgrees (lookup x graph) k (group_named x gs)) (rw other refl)
                    (h x)) in
            let next =
              release_lem ps name (insert p n1 graph) queue1 u gs left
                (requeue-Queued name p graph queue n q apart there (omega (arith, more)))
                (ground arith) in
            let same_size = size-insert p n1 n graph there in
            let live : (n.indegree == 0) ≡ false = ground (arith, more) in
            (next.0, rw (there, live) next.1, (next.2.0, next.2.1, next.2.2 ∙ same_size))
      ]

  pub delete-Agrees :
      (name : String) (graph : Graph M) (d : String → ℕ) (gs left : List (ProxyGroup M))
      → Agrees graph d gs
      → d name ≡ 0
      → ((x : String) → group_named x left ≡ (if str_eq name x then none else group_named x gs))
      → Agrees (delete name graph) d left
  delete-Agrees name graph d gs left h free others x = elim (Bool-cases (str_eq name x)) [
    | inl e ↦
        let same : name ≡ x = ground (arith, str_eq_iff name x) in
        rw (lookup-delete name x graph, e) (ap d (sym same) ∙ free, others x ∙ rw e refl)
    | inr e ↦
        let as_before : group_named x left ≡ group_named x gs = others x ∙ rw e refl in
        rw (lookup-delete name x graph, e, as_before) (h x)
  ]

  pub delete-Queued :
      (name : String) (graph : Graph M) (queue : List String)
      → Queued name graph queue
      → (x : String) → times x queue ≡ ready (lookup x (delete name graph))
  delete-Queued name graph queue h x = elim (Bool-cases (str_eq name x)) [
    | inl e ↦ rw (lookup-delete name x graph, e) (h x ∙ rw e refl)
    | inr e ↦ rw (lookup-delete name x graph, e) (h x ∙ rw e refl)
  ]

  -- The first of the queue is a node that nothing waits for, and it is queued once.
  pub pop_lem :
      (name : String) (rest : List String) (graph : Graph M)
      → ((x : String) → times x (name ∷ rest) ≡ ready (lookup x graph))
      → (n : GraphNode M) × (lookup name graph ≡ some n) × (n.indegree ≡ 0) × Queued name graph rest
  pop_lem name rest graph h =
      let itself : str_eq name name ≡ true = ground (arith, str_eq_iff name name) in
      let queued_rest : times name rest ≡ 0 → Queued name graph rest = λ left x.
        elim (Bool-cases (str_eq name x)) [
          | inl e ↦
              let same : name ≡ x = ground (arith, str_eq_iff name x) in
              rw e (ap (λ (k : String). times k rest) (sym same) ∙ left)
          | inr e ↦ rw e (rw e at (h x))
        ] in
      let first : suc (times name rest) ≡ ready (lookup name graph) = ground (arith, h name) in
      elim (Option-cases (lookup name graph)) [
        | inl gone ↦ absurd (ground (arith, first ∙ ap ready gone))
        | inr (n, there) ↦
            let once : suc (times name rest) ≡ (if n.indegree == 0 then 1 else 0) =
              first ∙ ap ready there in
            let left : times name rest ≡ 0 = ground (arith, once) in
            (n, there, ground (arith, once), λ x. queued_rest left x)
      ]
