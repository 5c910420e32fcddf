-- ===== src/Config/DagSort/Groups.antt =====
-- The groups that are left, and the order of the groups that are done (config/utils.go).
use mathlib.Core.List.{Perm}
use mathlib.Core.List.Perm
use mathlib.Core.Option.{some_inj}
use clash_for_android.Prelude.{
  suc, ◌+◌, ◌≡◌, refl, sym, ap, ◌∙◌, false, String, str_eq, str_eq_iff, List, [], ◌∷◌, none, some,
  if◌then◌else◌, arith, subst, Bool-cases, none-ne-some, inl, inr, All, In, length,
}
use clash_for_android.Config.DagSort.{ProxyGroup}
use clash_for_android.Config.DagSort.Edges.{times, uses, group_named, UniqueNames}

module _ {M : Type 0} where
  -- No group names a group that stands at its own place or after it.
  abbrev pub MembersFirst : List (ProxyGroup M) → Type 0
  MembersFirst [] = Unit {0}
  MembersFirst (g ∷ gs) =
      ((p : String) → In p g.1.proxies → group_named p (g ∷ gs) ≡ none) × MembersFirst gs

  abbrev pub removed : String → List (ProxyGroup M) → List (ProxyGroup M)
  removed name [] = []
  removed name (g ∷ gs) = if str_eq g.1.name name then gs else g ∷ removed name gs

  pub group_named-name :
      (x : String) (gs : List (ProxyGroup M)) (g : ProxyGroup M)
      → group_named x gs ≡ some g
      → g.1.name ≡ x
  group_named-name x [] g h = absurd (none-ne-some refl h)
  group_named-name x (f ∷ fs) g h = elim (Bool-cases (str_eq f.1.name x)) [
    | inl e ↦
        let same : f ≡ g = some_inj.0 (rw e at h) in
        ap (λ (k : ProxyGroup M). k.1.name) (sym same) ∙ ground (arith, str_eq_iff f.1.name x)
    | inr e ↦ group_named-name x fs g (rw e at h)
  ]

  pub uses-removed :
      (x name : String) (gs : List (ProxyGroup M)) (g : ProxyGroup M)
      → group_named name gs ≡ some g
      → uses x gs ≡ times x g.1.proxies + uses x (removed name gs)
  uses-removed x name [] g h = absurd (none-ne-some refl h)
  uses-removed x name (f ∷ fs) g h = elim (Bool-cases (str_eq f.1.name name)) [
    | inl e ↦
        let same : f ≡ g = some_inj.0 (rw e at h) in
        rw e (ap (λ (k : ProxyGroup M). times x k.1.proxies + uses x fs) same)
    | inr e ↦ rw e (omega (arith, uses-removed x name fs g (rw e at h)))
  ]

  pub perm-removed :
      (name : String) (gs : List (ProxyGroup M)) (g : ProxyGroup M)
      → group_named name gs ≡ some g
      → Perm gs (g ∷ removed name gs)
  perm-removed name [] g h = absurd (none-ne-some refl h)
  perm-removed name (f ∷ fs) g h = elim (Bool-cases (str_eq f.1.name name)) [
    | inl e ↦
        let same : f ≡ g = some_inj.0 (rw e at h) in
        rw e (subst (λ k. Perm (f ∷ fs) (k ∷ fs)) same (Perm.refl (f ∷ fs)))
    | inr e ↦ rw e (
        Perm.trans (Perm.cons f (perm-removed name fs g (rw e at h)))
          (Perm.swap g f (removed name fs)))
  ]

  pub length-removed :
      (name : String) (gs : List (ProxyGroup M)) (g : ProxyGroup M)
      → group_named name gs ≡ some g
      → length gs ≡ suc (length (removed name gs))
  length-removed name [] g h = absurd (none-ne-some refl h)
  length-removed name (f ∷ fs) g h = elim (Bool-cases (str_eq f.1.name name)) [
    | inl e ↦ rw e refl
    | inr e ↦ rw e (ap suc (length-removed name fs g (rw e at h)))
  ]

  pub group_named-removed :
      (name x : String) (gs : List (ProxyGroup M))
      → UniqueNames gs
      → group_named x (removed name gs) ≡ (if str_eq name x then none else group_named x gs)
  group_named-removed name x [] u = ground arith
  group_named-removed name x (f ∷ fs) u = elim (Bool-cases (str_eq f.1.name name)) [
    | inl e ↦
        let same : f.1.name ≡ name = ground (arith, str_eq_iff f.1.name name) in
        let gone : group_named name fs ≡ none =
          subst (λ (k : String). group_named k fs ≡ none) same u.0 in
        elim (Bool-cases (str_eq name x)) [
          | inl here ↦
              let there : name ≡ x = ground (arith, str_eq_iff name x) in
              rw (e, here) (subst (λ (k : String). group_named k fs ≡ none) there gone)
          | inr other ↦
              let apart : str_eq f.1.name x ≡ false =
                rw (ap (λ (k : String). str_eq k x) same) other in
              rw (e, other, apart) refl
        ]
    | inr e ↦ rw e (
        ground (
          arith,
          group_named-removed name x fs u.1,
          str_eq_iff f.1.name x,
          str_eq_iff name x,
          str_eq_iff f.1.name name,
        ))
  ]

  pub removed-UniqueNames :
      (name : String) (gs : List (ProxyGroup M)) → UniqueNames gs → UniqueNames (removed name gs)
  removed-UniqueNames name [] u = tt
  removed-UniqueNames name (f ∷ fs) u = elim (Bool-cases (str_eq f.1.name name)) [
    | inl e ↦ rw e u.1
    | inr e ↦
        let gone : group_named f.1.name (removed name fs) ≡ none =
          group_named-removed name f.1.name fs u.1 ∙ ground (arith, u.0) in
        rw e (gone, removed-UniqueNames name fs u.1)
  ]

  pub removed-All {κ} :
      (P : ProxyGroup M → Type κ) (name : String) (gs : List (ProxyGroup M))
      → All P gs
      → All P (removed name gs)
  removed-All P name [] h = h
  removed-All P name (f ∷ fs) h = elim (Bool-cases (str_eq f.1.name name)) [
    | inl e ↦ rw e h.1
    | inr e ↦ rw e (h.0, removed-All P name fs h.1)
  ]

  pub group_named-All {κ} :
      (P : ProxyGroup M → Type κ) (x : String) (gs : List (ProxyGroup M)) (g : ProxyGroup M)
      → group_named x gs ≡ some g
      → All P gs
      → P g
  group_named-All P x [] g e h = absurd (none-ne-some refl e)
  group_named-All P x (f ∷ fs) g e h = elim (Bool-cases (str_eq f.1.name x)) [
    | inl here ↦ subst P (some_inj.0 (rw here at e)) h.0
    | inr other ↦ group_named-All P x fs g (rw other at e) h.1
  ]
