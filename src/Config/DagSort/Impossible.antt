-- ===== src/Config/DagSort/Impossible.antt =====
-- Where the sort reports a loop there is no order (config/utils.go).
use mathlib.Core.HLevel.{⊥_prop}
use mathlib.Core.List.{Perm}
use mathlib.Core.List.Perm
use mathlib.Core.List.Permᴰ.{Permᴰ}
use mathlib.Core.Logic.{∥∥₁_elim}
use mathlib.Core.Option.{some_inj}
use clash_for_android.Prelude.{
  ◌≡◌, refl, sym, ap, ◌∙◌, ◌≢◌, subst, String, str_eq, List, [], ◌∷◌, ◌++◌, none, some, ◌⊎◌, inl,
  inr, Bool-cases, none-ne-some, In, In-append_left, Result, ok, err,
}
use clash_for_android.Config.DagSort.{GroupOption, ProxyGroup, Graph, loop_in, sort_groups}
use clash_for_android.Config.DagSort.Edges.{group_named}
use clash_for_android.Config.DagSort.Build.{entries}
use clash_for_android.Config.DagSort.Groups.{MembersFirst}
use clash_for_android.Config.DagSort.Sorted.{
  AreOptions, group_named-In, IsShuffle, HasLoop, SortOutcome, sort_groups_lem,
}

In-Permᴰ : {A : Type 0} (a : A) (xs ys : List A) → Permᴰ xs ys → In a xs → In a ys
In-Permᴰ a [] [] Permᴰ.nil m = m
In-Permᴰ a (x ∷ xs) (y ∷ ys) (Permᴰ.cons e d) (inl h) = inl (h ∙ e)
In-Permᴰ a (x ∷ xs) (y ∷ ys) (Permᴰ.cons e d) (inr m) = inr (In-Permᴰ a xs ys d m)
In-Permᴰ a (x ∷ y ∷ xs) ys (Permᴰ.swap e f) (inl h) = inr (inl (h ∙ e))
In-Permᴰ a (x ∷ y ∷ xs) ys (Permᴰ.swap e f) (inr (inl h)) = inl (h ∙ f)
In-Permᴰ a (x ∷ y ∷ xs) ys (Permᴰ.swap e f) (inr (inr m)) = inr (inr m)
In-Permᴰ a xs zs (Permᴰ.trans {l₂ = ys} d e) m = In-Permᴰ a ys zs e (In-Permᴰ a xs ys d m)

module _ {M : Type 0} where
  -- The first groups name no group of the rest.
  abbrev NoneNames : List (ProxyGroup M) → List (ProxyGroup M) → Type 0
  NoneNames first rest =
      (h : ProxyGroup M) → In h first → (p : String) → In p h.1.proxies → group_named p rest ≡ none

  named-tail :
      (p : String) (g : ProxyGroup M) (gs : List (ProxyGroup M))
      → group_named p (g ∷ gs) ≡ none
      → group_named p gs ≡ none
  named-tail p g gs e = elim (Bool-cases (str_eq g.1.name p)) [
    | inl here ↦ absurd (none-ne-some (rw here at e) refl)
    | inr other ↦ rw other at e
  ]

  -- In an order in which members come first, a group of a loop would need a user that comes before.
  loop-In :
      (gs first rest : List (ProxyGroup M))
      → ((g : ProxyGroup M)
          → In g gs
          → (user : ProxyGroup M) × In user gs × In g.1.name user.1.proxies)
      → ((g : ProxyGroup M) → In g gs → In g first ⊎ In g rest)
      → MembersFirst rest
      → NoneNames first rest
      → (g : ProxyGroup M) → In g gs
      → In g rest
      → ⊥
  loop-In gs first [] used within ordered free g m there = there
  loop-In gs first (o ∷ rest) used within ordered free g m there =
      let before : NoneNames (o ∷ first) rest = λ h k p q. named-tail p o rest (elim k [
        | inl e ↦ ordered.0 p (subst (λ (f : ProxyGroup M). In p f.1.proxies) e q)
        | inr l ↦ free h l p q
      ]) in
      let places = λ (f : ProxyGroup M) (k : In f gs).
        elim (within f k) as (λ w. In f (o ∷ first) ⊎ In f rest) [
          | inl l ↦ inl (inr l)
          | inr (inl e) ↦ inl (inl e)
          | inr (inr r) ↦ inr r
        ] in
      let later = loop-In gs (o ∷ first) rest used places ordered.1 before in
      let (user, k, named) = used g m in
      elim (within user k) [
        | inl l ↦ group_named-In g (o ∷ rest) there (free user l g.1.name named)
        | inr (inl e) ↦
            group_named-In g (o ∷ rest) there
              (ordered.0 g.1.name (subst (λ (f : ProxyGroup M). In g.1.name f.1.proxies) e named))
        | inr (inr r) ↦ later user k r
      ]

  List-some : (gs : List (ProxyGroup M)) → gs ≢ [] → (g : ProxyGroup M) × In g gs
  List-some [] h = absurd (h refl)
  List-some (g ∷ gs) h = (g, inl refl)

  In-entries : (g : ProxyGroup M) (gs : List (ProxyGroup M)) → In g gs → In g.0 (entries gs)
  In-entries g [] m = m
  In-entries g (f ∷ fs) (inl e) = inl (ap (λ (k : ProxyGroup M). k.0) e)
  In-entries g (f ∷ fs) (inr m) = inr (In-entries g fs m)

module _ {M E : Type 0} (decode : M → Result E GroupOption) where
  options-injective : (a b : GroupOption) → ◌≡◌ {A = Result E GroupOption} (ok a) (ok b) → a ≡ b
  options-injective a b e = cc

  -- An entry has one way to be read.
  In-options :
      (g : ProxyGroup M) (os : List (ProxyGroup M))
      → AreOptions decode os
      → decode g.0 ≡ ok g.1
      → In g.0 (entries os)
      → In g os
  In-options g [] h e m = m
  In-options g (o ∷ os) h e (inl s) =
      let read : ◌≡◌ {A = Result E GroupOption} (ok g.1) (ok o.1) = sym e ∙ (ap decode s ∙ h.0) in
      let same : g.1 ≡ o.1 = options-injective g.1 o.1 read in inl (λ i. (s i, same i))
  In-options g (o ∷ os) h e (inr m) = inr (In-options g os h.1 e m)

  All-In :
      (gs : List (ProxyGroup M)) (g : ProxyGroup M)
      → AreOptions decode gs
      → In g gs
      → decode g.0 ≡ ok g.1
  All-In [] g h m = absurd m
  All-In (f ∷ fs) g h (inl e) = subst (λ (k : ProxyGroup M). decode k.0 ≡ ok k.1) (sym e) h.0
  All-In (f ∷ fs) g h (inr m) = All-In fs g h.1 m

  HasLoop-MembersFirst :
      (groups : List M) (os : List (ProxyGroup M))
      → HasLoop decode groups
      → AreOptions decode os
      → MembersFirst os
      → Perm (entries os) groups
      → ⊥
  HasLoop-MembersFirst groups os (gs, read, (some_groups, used), (rest, whole)) options ordered
        same =
      ∥∥₁_elim (Perm.trans whole (Perm.symm same)) ⊥_prop
        (λ (d : Permᴰ (entries gs ++ rest) (entries os)).
          let all_in = λ (g : ProxyGroup M) (m : In g gs).
            In-options g os options (All-In gs g read m) (
              In-Permᴰ g.0 (entries gs ++ rest) (entries os) d
                (In-append_left g.0 (entries gs) rest (In-entries g gs m))) in
          let (g, m) = List-some gs some_groups in
          loop-In gs [] os used (λ f k. inr (all_in f k)) ordered (λ h k. absurd k) g m
            (all_in g m))

-- A loop is reported only where there is no order: the entries cannot be put so that no group
-- names itself or one that comes after it.
pub loop_in-no_order :
    {M E : Type 0} (decode : M → Result E GroupOption) (shuffle : List String → List String)
    (groups : List M) (graph : Graph M) (os : List (ProxyGroup M))
    → IsShuffle shuffle
    → sort_groups decode shuffle groups ≡ some (err (loop_in graph))
    → AreOptions decode os
    → MembersFirst os
    → ¬ Perm (entries os) groups
loop_in-no_order {M} {E} decode shuffle groups graph os shuffles failed options ordered same =
    let (r, returned, right) = sort_groups_lem decode groups shuffle shuffles in
    let e : r ≡ err (loop_in graph) = some_inj.0 (sym returned ∙ failed) in
    HasLoop-MembersFirst decode groups os (subst (SortOutcome decode groups) e right) options
      ordered same
