-- ===== src/Prelude/Maps.antt =====
-- A Go map with string keys, as an association list in which a key is replaced in place.

use mathlib.Core.Bool.{false}
use mathlib.Core.Logic.{inl, inr}
use mathlib.Core.List.{List, [], ◌∷◌}
use mathlib.Core.Option.{Option, none, some}
use mathlib.Core.Path.{◌≡◌, refl, subst}
use native.Mathlib.Omega.{arith}
use Prim.Native.String.{String}
use Prim.Native.Nat.{ℕ, suc, ◌≤◌, ◌<◌}
use text.Mathlib.Text.{◌==◌}
use text.Mathlib.TextEquality.{eq_iff}
use clash_for_android.Prelude.Tests.{if◌then◌else◌, none-ne-some, Bool-cases}

abbrev pub Dict {ℓ} : Type ℓ → Type ℓ
Dict V = List (String × V)

module _ {ℓ} {V : Type ℓ} where
  -- The value of the first entry of the name.
  abbrev pub lookup : String → Dict V → Option V
  lookup name [] = none
  lookup name (entry ∷ rest) = if entry.0 == name then some entry.1 else lookup name rest

  abbrev pub insert : String → V → Dict V → Dict V
  insert name new [] = (name, new) ∷ []
  insert name new (entry ∷ rest) =
      if entry.0 == name then (name, new) ∷ rest else entry ∷ insert name new rest

  pub lookup-insert :
      (name other : String) (new : V) (dict : Dict V)
      → lookup other (insert name new dict)
        ≡ (if name == other then some new else lookup other dict)
  lookup-insert name other new [] = refl
  lookup-insert name other new (entry ∷ rest) = ground (
    arith,
    eq_iff entry.0 other,
    eq_iff entry.0 name,
    eq_iff name other,
    lookup-insert name other new rest,
  )

  -- Go's delete: no entry of the name is left.
  abbrev pub delete : String → Dict V → Dict V
  delete name [] = []
  delete name (entry ∷ rest) =
      let others = delete name rest in if entry.0 == name then others else entry ∷ others

  pub lookup-delete :
      (name other : String) (dict : Dict V)
      → lookup other (delete name dict) ≡ (if name == other then none else lookup other dict)
  lookup-delete name other [] = ground (arith, eq_iff name other)
  lookup-delete name other (entry ∷ rest) = ground (
    arith,
    eq_iff entry.0 other,
    eq_iff entry.0 name,
    eq_iff name other,
    lookup-delete name other rest,
  )

  abbrev pub size : Dict V → ℕ
  size [] = 0
  size (entry ∷ rest) = suc (size rest)

  pub size-insert :
      (name : String) (new old : V) (dict : Dict V)
      → lookup name dict ≡ some old
      → size (insert name new dict) ≡ size dict
  size-insert name new old [] h = absurd (none-ne-some refl h)
  size-insert name new old (entry ∷ rest) h =
      ground (arith, eq_iff entry.0 name, size-insert name new old rest)

  pub size-delete-le : (name : String) (dict : Dict V) → size (delete name dict) ≤ size dict
  size-delete-le name [] = omega arith
  size-delete-le name (entry ∷ rest) = ground (arith, size-delete-le name rest)

  pub size-delete :
      (name : String) (old : V) (dict : Dict V)
      → lookup name dict ≡ some old
      → size (delete name dict) < size dict
  size-delete name old [] h = absurd (none-ne-some refl h)
  size-delete name old (entry ∷ rest) h =
      ground (arith, eq_iff entry.0 name, size-delete-le name rest, size-delete name old rest)

  -- No key stands twice.
  abbrev pub UniqueKeys : Dict V → Type ℓ
  UniqueKeys [] = Unit {ℓ}
  UniqueKeys (entry ∷ rest) = (lookup entry.0 rest ≡ none) × UniqueKeys rest

  pub insert-UniqueKeys :
      (name : String) (new : V) (dict : Dict V)
      → UniqueKeys dict
      → UniqueKeys (insert name new dict)
  insert-UniqueKeys name new [] h = (refl, tt)
  insert-UniqueKeys name new (entry ∷ rest) h = elim (Bool-cases (entry.0 == name)) [
    | inl e ↦
        let same : entry.0 ≡ name = ground (arith, eq_iff entry.0 name) in
        rw e (subst (λ (k : String). lookup k rest ≡ none) same h.0, h.1)
    | inr e ↦
        let apart : (name == entry.0) ≡ false =
          ground (arith, eq_iff entry.0 name, eq_iff name entry.0) in
        let here = lookup-insert name entry.0 new rest in
        rw e (rw (here, apart) h.0, insert-UniqueKeys name new rest h.1)
  ]
