-- ===== src/Config/DagSort/Order.antt =====
-- What the loop of the sort keeps, and what is left where it ends (config/utils.go).
use mathlib.Core.List.{Perm, perm_middle}
use mathlib.Core.List.Perm
use clash_for_android.Prelude.{
  ℕ, zero, suc, ◌+◌, ◌-◌, ◌≡◌, ◌<◌, refl, sym, ap, ◌∙◌, false, String, str_eq, str_eq_iff, List, [],
  ◌∷◌, ◌++◌, none, some, lookup, delete, size, size-delete, if◌then◌else◌, arith, subst, Bool-cases,
  Option-cases, none-ne-some, inl, inr, All, In, length, take, leb, length-append, length-take,
  Result, ok,
}
use clash_for_android.Config.DagSort.{
  GroupOption, ProxyGroup, GraphNode, Sorting, set_at, put_group, release_from,
}
use clash_for_android.Config.DagSort.Edges.{
  times, uses, group_named, UniqueNames, NodeAgrees, Agrees,
}
use clash_for_android.Config.DagSort.Build.{entries}
use clash_for_android.Config.DagSort.Turn.{ready, Queued, release_lem, delete-Agrees, delete-Queued}
use clash_for_android.Config.DagSort.Groups.{
  MembersFirst, removed, group_named-name, uses-removed, perm-removed, length-removed,
  group_named-removed, removed-UniqueNames, removed-All, group_named-All,
}

set_at-take :
    {A : Type 0} (k : ℕ) (a : A) (xs ys : List A)
    → k < length xs
    → set_at k a (take (suc k) xs ++ ys) ≡ take k xs ++ (a ∷ ys)
set_at-take k a [] ys h = absurd (omega arith)
set_at-take zero a (x ∷ xs) ys h = refl
set_at-take (suc k) a (x ∷ xs) ys h = ap (◌∷◌ x) (set_at-take k a xs ys (omega arith))

length-entries : {M : Type 0} (gs : List (ProxyGroup M)) → length (entries gs) ≡ length gs
length-entries [] = refl
length-entries (g ∷ gs) = ap suc (length-entries gs)

-- The invariant, with the groups that are left in the graph and those that are done.
pub record IsSorting {M E : Type 0} (decode : M → Result E GroupOption) (groups : List M)
    (s : Sorting M) (left done : List (ProxyGroup M)) : Type 0 where
  pub agrees : Agrees s.graph (λ x. uses x left) left
  pub queued : (x : String) → times x s.queue ≡ ready (lookup x s.graph)
  pub names : UniqueNames left
  pub left_decoded : All (λ g. decode g.0 ≡ ok g.1) left
  pub done_decoded : All (λ g. decode g.0 ≡ ok g.1) done
  pub done_unused : (x : String) (g : ProxyGroup M) → group_named x done ≡ some g → uses x left ≡ 0
  pub members_first : MembersFirst done
  pub array : s.sorted ≡ take (length groups - s.index) groups ++ entries done
  pub count : s.index ≡ length done
  pub total : length done + length left ≡ length groups
  pub kept : Perm (entries done ++ entries left) groups

module _ {M E : Type 0} (decode : M → Result E GroupOption) (groups : List M) where
  length-sorted :
      (s : Sorting M) (left done : List (ProxyGroup M))
      → IsSorting decode groups s left done
      → length s.sorted ≡ length groups
  length-sorted s left done h =
      ap length h.array
      ∙ omega (
        arith,
        length-append (take (length groups - s.index) groups) (entries done),
        length-take (length groups - s.index) groups (omega arith),
        length-entries done,
        h.count,
        h.total,
      )

  -- A group goes before those that are done.
  put_group_lem :
      (m : M) (s : Sorting M) (rest : List String) (left done : List (ProxyGroup M))
      → IsSorting decode groups s left done
      → 0 < length left
      → (sorted : List M) × (put_group m (record s { queue = rest })
          ≡ some (record s { queue = rest; sorted = sorted; index = s.index + 1 }))
        × (sorted ≡ take (length groups - (s.index + 1)) groups ++ (m ∷ entries done))
  put_group_lem m s rest left done h more =
      let full = length-sorted s left done h in
      let room : leb (length s.sorted) s.index ≡ false = ground (arith, full, h.count, h.total) in
      let next : length groups - s.index ≡ suc (length groups - (s.index + 1)) =
        omega (arith, h.count, h.total) in
      (
        set_at (length s.sorted - (s.index + 1)) m s.sorted,
        rw room refl,
        rw (full, h.array, next)
            (set_at-take (length groups - (s.index + 1)) m groups (entries done)
              (omega (arith, h.count, h.total))),
      )

times-In : (p : String) (ps : List String) → In p ps → 0 < times p ps
times-In p [] h = absurd h
times-In p (q ∷ ps) (inl e) = ground (arith, str_eq_iff q p, e)
times-In p (q ∷ ps) (inr m) = ground (arith, times-In p ps m)

module _ {M E : Type 0} (decode : M → Result E GroupOption) (groups : List M) (s : Sorting M)
    (left done : List (ProxyGroup M)) (h : IsSorting decode groups s left done) (name : String)
    (g : ProxyGroup M) (named : group_named name left ≡ some g) (free : uses name left ≡ 0) where
  done_unused_more :
      (x : String) (f : ProxyGroup M) → group_named x (g ∷ done) ≡ some f → uses x left ≡ 0
  done_unused_more x f e = elim (Bool-cases (str_eq g.1.name x)) [
    | inl here ↦
        let same : name ≡ x =
          sym (group_named-name name left g named) ∙ ground (arith, str_eq_iff g.1.name x) in
        ap (λ (k : String). uses k left) (sym same) ∙ free
    | inr other ↦ h.done_unused x f (rw other at e)
  ]

  MembersFirst-more : MembersFirst (g ∷ done)
  MembersFirst-more = (
    λ p m. elim (Option-cases (group_named p (g ∷ done))) [
      | inl gone ↦ gone
      | inr (f, e) ↦ absurd (
          omega (
            arith,
            done_unused_more p f e,
            uses-removed p name left g named,
            times-In p g.1.proxies m,
          ))
    ],
    h.members_first,
  )

  kept_more : Perm (entries (g ∷ done) ++ entries (removed name left)) groups
  kept_more = Perm.trans (Perm.symm (perm_middle (entries done) (entries (removed name left)))) (
      Perm.trans
        (Perm.append_left (entries done)
          (Perm.symm (Perm.map (λ k. k.0) (perm-removed name left g named))))
        h.kept)

  pub take_group :
      (rest : List String) (n : GraphNode M)
      → lookup name s.graph ≡ some n
      → Queued name s.graph rest
      → (s1 : Sorting M) × (release_from name g.1.proxies
            (put_group g.0 (record s { queue = rest }))
          ≡ some s1)
        × IsSorting decode groups s1 (removed name left) (g ∷ done)
        × (size s1.graph < size s.graph)
  take_group rest n there queued =
      let lefts = length-removed name left g named in
      let placed = put_group_lem decode groups g.0 s rest left done h (omega (arith, lefts)) in
      let u = λ (x : String). uses x (removed name left) in
      let split = λ (x : String). uses-removed x name left g named in
      let before : Agrees s.graph (λ x. times x g.1.proxies + u x) left = λ x.
        subst (λ k. NodeAgrees (lookup x s.graph) k (group_named x left)) (split x) (h.agrees x) in
      let freed =
        release_lem g.1.proxies name s.graph rest u left before queued
          (omega (arith, split name)) in
      let graph1 = freed.0.0 in
      let queue1 = freed.0.1 in
      let smaller : size (delete name graph1) < size s.graph =
        elim (Option-cases (lookup name graph1)) [
          | inl gone ↦
              let at =
                subst (λ o. NodeAgrees o (u name) (group_named name left)) gone (freed.2.0 name) in
              absurd (none-ne-some at.1 named)
          | inr (n1, e) ↦ omega (arith, size-delete name n1 graph1 e, freed.2.2)
        ] in
      let s1 : Sorting M = record {
        graph = delete name graph1;
        queue = queue1;
        sorted = placed.0;
        index = s.index + 1;
      } in
      (
        s1,
        rw (placed.1, freed.1) refl,
        record {
          agrees =
              delete-Agrees name graph1 u left (removed name left) freed.2.0
                (omega (arith, split name)) (λ x. group_named-removed name x left h.names);
          queued = delete-Queued name graph1 queue1 freed.2.1;
          names = removed-UniqueNames name left h.names;
          left_decoded = removed-All (λ k. decode k.0 ≡ ok k.1) name left h.left_decoded;
          done_decoded = (
            group_named-All (λ k. decode k.0 ≡ ok k.1) name left g named h.left_decoded,
            h.done_decoded,
          );
          done_unused = λ x f e. omega (arith, done_unused_more x f e, split x);
          members_first = MembersFirst-more;
          array = placed.2;
          count = omega (arith, h.count);
          total = omega (arith, h.total, lefts);
          kept = kept_more;
        },
        smaller,
      )

nobody_there :
    {M : Type 0} (left : List (ProxyGroup M)) (name x : String)
    → group_named name left ≡ none
    → group_named x left ≡ (if str_eq name x then none else group_named x left)
nobody_there left name x nobody = elim (Bool-cases (str_eq name x)) [
  | inl e ↦
      let same : name ≡ x = ground (arith, str_eq_iff name x) in
      rw e (ap (λ (k : String). group_named k left) (sym same) ∙ nobody)
  | inr e ↦ rw e refl
]

module _ {M E : Type 0} (decode : M → Result E GroupOption) (groups : List M) where
  -- A name that is no group's.
  pub take_proxy :
      (s : Sorting M) (left done : List (ProxyGroup M)) (name : String) (rest : List String)
      (n : GraphNode M)
      → IsSorting decode groups s left done
      → lookup name s.graph ≡ some n
      → Queued name s.graph rest
      → uses name left ≡ 0
      → group_named name left ≡ none
      → IsSorting decode groups (record s { graph = delete name s.graph; queue = rest }) left done
        × (size (delete name s.graph) < size s.graph)
  take_proxy s left done name rest n h there queued free nobody = (
    record {
      agrees =
          delete-Agrees name s.graph (λ x. uses x left) left left h.agrees free
            (λ x. nobody_there left name x nobody);
      queued = delete-Queued name s.graph rest queued;
      names = h.names;
      left_decoded = h.left_decoded;
      done_decoded = h.done_decoded;
      done_unused = h.done_unused;
      members_first = h.members_first;
      array = h.array;
      count = h.count;
      total = h.total;
      kept = h.kept;
    },
    size-delete name n s.graph there,
  )
