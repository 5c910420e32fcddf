-- ===== src/FakeIp/Recency.antt =====
-- The entries of an LRU cache, the least recent one first, and such a list with its pairs the other
-- way round (what component/fakeip/memory.go uses of common/lru).
pub mod Keys
pub mod Turned
use mathlib.Core.Option.{some_inj}
use clash_for_android.Prelude.{
  ℕ, ◌<◌, ◌≡◌, refl, sym, ap, ◌∙◌, ◌↔◌, Bool, true, false, List, [], ◌∷◌, ◌++◌, Option, none, some,
  ltb, if◌then◌else◌, length, All, arith, Bool-cases, Option-cases, subst, inl, inr, none-ne-some,
}

module _ {K V : Type 0} (same : K → K → Bool) where
  abbrev pub find : K → List (K × V) → Option V
  find k [] = none
  find k (e ∷ es) = if same e.0 k then some e.1 else find k es

  abbrev pub removed : K → List (K × V) → List (K × V)
  removed k [] = []
  removed k (e ∷ es) = let others = removed k es in if same e.0 k then es else e ∷ others

  abbrev pub moved_with : K → List (K × V) → Option V → List (K × V)
  moved_with k es none = es
  moved_with k es (some v) = removed k es ++ ((k, v) ∷ [])

  -- A use of a key makes it the most recent one.
  abbrev pub moved : K → List (K × V) → List (K × V)
  moved k es = moved_with k es (find k es)

  -- No key stands twice.
  abbrev pub Distinct : List (K × V) → Type 0
  Distinct [] = Unit {0}
  Distinct (e ∷ es) = (find e.0 es ≡ none) × Distinct es

abbrev pub but_first : {A : Type 0} → List A → List A
but_first [] = []
but_first (x ∷ xs) = xs

-- The least recent entry goes where there are too many.
abbrev pub trimmed : {A : Type 0} → ℕ → List A → List A
trimmed n xs = if ltb n (length xs) then but_first xs else xs

module _ {K V : Type 0} (same : K → K → Bool) where
  abbrev pub put_with : ℕ → K → V → List (K × V) → Option V → List (K × V)
  put_with n k v es none = trimmed n (es ++ ((k, v) ∷ []))
  put_with n k v es (some old) = removed same k es ++ ((k, v) ∷ [])

  abbrev pub put_recent : ℕ → K → V → List (K × V) → List (K × V)
  put_recent n k v es = put_with n k v es (find same k es)

abbrev pub swapped : {K V : Type 0} → List (K × V) → List (V × K)
swapped [] = []
swapped (e ∷ es) = (e.1, e.0) ∷ swapped es

pub swapped-swapped : {K V : Type 0} (es : List (K × V)) → swapped (swapped es) ≡ es
swapped-swapped [] = refl
swapped-swapped (e ∷ es) = ap (◌∷◌ e) (swapped-swapped es)

pub swapped-append :
    {K V : Type 0} (es fs : List (K × V)) → swapped (es ++ fs) ≡ swapped es ++ swapped fs
swapped-append [] fs = refl
swapped-append (e ∷ es) fs = ap (◌∷◌ (e.1, e.0)) (swapped-append es fs)

length-swapped : {K V : Type 0} (es : List (K × V)) → length (swapped es) ≡ length es
length-swapped [] = refl
length-swapped (e ∷ es) = omega (arith, length-swapped es)

pub swapped-trimmed :
    {K V : Type 0} (n : ℕ) (es : List (K × V)) → swapped (trimmed n es) ≡ trimmed n (swapped es)
swapped-trimmed n [] = ground arith
swapped-trimmed n (e ∷ es) = rw (length-swapped es) (elim (Bool-cases (ltb n (length (e ∷ es)))) [
  | inl full ↦ rw full refl
  | inr room ↦ rw room refl
])

pub append-All :
    {A : Type 0} (P : A → Type 0) (xs ys : List A) → All P xs → All P ys → All P (xs ++ ys)
append-All P [] ys h k = k
append-All P (x ∷ xs) ys h k = (h.0, append-All P xs ys h.1 k)

pub trimmed-All :
    {A : Type 0} (P : A → Type 0) (n : ℕ) (xs : List A) → All P xs → All P (trimmed n xs)
trimmed-All P n [] h = ground arith
trimmed-All P n (x ∷ xs) h = elim (Bool-cases (ltb n (length (x ∷ xs)))) [
  | inl full ↦ rw full h.1
  | inr room ↦ rw room h
]

pub find-All :
    {K V : Type 0} (same : K → K → Bool) (P : V → Type 0) (k : K) (v : V) (es : List (K × V))
    → find same k es ≡ some v
    → All (λ e. P e.1) es
    → P v
find-All same P k v [] e h = absurd (none-ne-some refl e)
find-All same P k v (f ∷ es) e h = elim (Bool-cases (same f.0 k)) [
  | inl t ↦ subst P (some_inj.0 (rw t at e)) h.0
  | inr o ↦ find-All same P k v es (rw o at e) h.1
]
