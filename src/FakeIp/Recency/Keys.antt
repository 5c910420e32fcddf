-- ===== src/FakeIp/Recency/Keys.antt =====
-- Uses, removals and additions of entries of an LRU cache, of which no key stands twice
-- (component/fakeip/memory.go).

use clash_for_android.Prelude.{
  ℕ, ◌<◌, ◌≡◌, refl, sym, ap, ◌∙◌, ◌↔◌, Bool, true, false, List, [], ◌∷◌, ◌++◌, none, some, ltb,
  if◌then◌else◌, length, All, arith, Bool-cases, Option-cases, inl, inr, none-ne-some,
}
use clash_for_android.FakeIp.Recency.{find, removed, moved, Distinct, trimmed, append-All}

module _ {K : Type 0} (same : K → K → Bool)
    (same_iff : (a b : K) → (same a b ≡ true) ↔ (a ≡ b)) where
  same_refl : (a : K) → same a a ≡ true
  same_refl a = (same_iff a a).1 refl

  same-sym : (a b : K) → same a b ≡ false → same b a ≡ false
  same-sym a b e = elim (Bool-cases (same b a)) [
    | inl t ↦ let s : same a b ≡ true = (same_iff a b).1 (sym ((same_iff b a).0 t)) in cc
    | inr f ↦ f
  ]

module _ {K V : Type 0} (same : K → K → Bool)
    (same_iff : (a b : K) → (same a b ≡ true) ↔ (a ≡ b)) where
  pub removed-none : (k : K) (es : List (K × V)) → find same k es ≡ none → removed same k es ≡ es
  removed-none k [] h = refl
  removed-none k (e ∷ es) h = elim (Bool-cases (same e.0 k)) [
    | inl t ↦ absurd (none-ne-some (rw t at h) refl)
    | inr f ↦ rw f (ap (◌∷◌ e) (removed-none k es (rw f at h)))
  ]

  pub find-removed_same :
      (k : K) (es : List (K × V)) → Distinct same es → find same k (removed same k es) ≡ none
  find-removed_same k [] d = refl
  find-removed_same k (e ∷ es) d = elim (Bool-cases (same e.0 k)) [
    | inl t ↦ rw t (ap (λ (x : K). find same x es) (sym ((same_iff e.0 k).0 t)) ∙ d.0)
    | inr f ↦ rw f (rw f (find-removed_same k es d.1))
  ]

  -- What is not there is not there after a removal.
  pub find-removed-none :
      (j k : K) (es : List (K × V)) → find same j es ≡ none → find same j (removed same k es) ≡ none
  find-removed-none j k [] h = refl
  find-removed-none j k (e ∷ es) h = elim (Bool-cases (same e.0 j)) [
    | inl t ↦ absurd (none-ne-some (rw t at h) refl)
    | inr f ↦
        let rest = rw f at h in
        elim (Bool-cases (same e.0 k)) [
          | inl gone ↦ rw gone rest
          | inr kept ↦ rw kept (rw f (find-removed-none j k es rest))
        ]
  ]

  pub removed-Distinct :
      (k : K) (es : List (K × V)) → Distinct same es → Distinct same (removed same k es)
  removed-Distinct k [] d = tt
  removed-Distinct k (e ∷ es) d = elim (Bool-cases (same e.0 k)) [
    | inl t ↦ rw t d.1
    | inr f ↦ rw f (find-removed-none e.0 k es d.0, removed-Distinct k es d.1)
  ]

  pub find-snoc :
      (j k : K) (v : V) (es : List (K × V))
      → find same j es ≡ none
      → find same j (es ++ ((k, v) ∷ [])) ≡ (if same k j then some v else none)
  find-snoc j k v [] h = refl
  find-snoc j k v (e ∷ es) h = elim (Bool-cases (same e.0 j)) [
    | inl t ↦ absurd (none-ne-some (rw t at h) refl)
    | inr f ↦ rw f (find-snoc j k v es (rw f at h))
  ]

  pub snoc-Distinct :
      (k : K) (v : V) (es : List (K × V))
      → find same k es ≡ none
      → Distinct same es
      → Distinct same (es ++ ((k, v) ∷ []))
  snoc-Distinct k v [] h d = (refl, tt)
  snoc-Distinct k v (e ∷ es) h d = elim (Bool-cases (same e.0 k)) [
    | inl t ↦ absurd (none-ne-some (rw t at h) refl)
    | inr f ↦
        let other : same k e.0 ≡ false = same-sym same same_iff e.0 k f in
        (find-snoc e.0 k v es d.0 ∙ rw other refl, snoc-Distinct k v es (rw f at h) d.1)
  ]

  pub removed-snoc :
      (k : K) (v : V) (es : List (K × V))
      → find same k es ≡ none
      → removed same k (es ++ ((k, v) ∷ [])) ≡ es
  removed-snoc k v [] h = rw (same_refl same same_iff k) refl
  removed-snoc k v (e ∷ es) h = elim (Bool-cases (same e.0 k)) [
    | inl t ↦ absurd (none-ne-some (rw t at h) refl)
    | inr f ↦ rw f (ap (◌∷◌ e) (removed-snoc k v es (rw f at h)))
  ]

  pub trimmed-Distinct :
      (n : ℕ) (es : List (K × V)) → Distinct same es → Distinct same (trimmed n es)
  trimmed-Distinct n [] d = ground arith
  trimmed-Distinct n (e ∷ es) d = elim (Bool-cases (ltb n (length (e ∷ es)))) [
    | inl full ↦ rw full d.1
    | inr room ↦ rw room d
  ]

  -- The newest entry is not the one that goes.
  pub find-trimmed_snoc :
      (n : ℕ) (k : K) (v : V) (es : List (K × V))
      → 0 < n
      → find same k es ≡ none
      → find same k (trimmed n (es ++ ((k, v) ∷ []))) ≡ some v
  find-trimmed_snoc n k v [] h new =
      let room : ltb n 1 ≡ false = ground arith in rw (room, same_refl same same_iff k) refl
  find-trimmed_snoc n k v (e ∷ es) h new = elim (Bool-cases (same e.0 k)) [
    | inl t ↦ absurd (none-ne-some (rw t at new) refl)
    | inr f ↦
        let last : find same k (es ++ ((k, v) ∷ [])) ≡ some v =
          find-snoc k k v es (rw f at new) ∙ rw (same_refl same same_iff k) refl in
        elim (Bool-cases (ltb n (length ((e ∷ es) ++ ((k, v) ∷ []))))) [
          | inl full ↦ rw full last
          | inr room ↦ rw (room, f) last
        ]
  ]

  pub removed-All :
      (P : K × V → Type 0) (k : K) (es : List (K × V)) → All P es → All P (removed same k es)
  removed-All P k [] h = tt
  removed-All P k (e ∷ es) h = elim (Bool-cases (same e.0 k)) [
    | inl t ↦ rw t h.1
    | inr f ↦ rw f (h.0, removed-All P k es h.1)
  ]

module _ {K V : Type 0} (same : K → K → Bool)
    (same_iff : (a b : K) → (same a b ≡ true) ↔ (a ≡ b)) where
  pub moved-Distinct :
      (k : K) (es : List (K × V)) → Distinct same es → Distinct same (moved same k es)
  moved-Distinct k es d = elim (Option-cases (find same k es)) [
    | inl e ↦ rw e d
    | inr (v, e) ↦ rw e (
        snoc-Distinct same same_iff k v (removed same k es) (find-removed_same same same_iff k es d)
          (removed-Distinct same same_iff k es d))
  ]

  pub moved-All :
      (P : K × V → Type 0) (k : K) (es : List (K × V))
      → ((v : V) → find same k es ≡ some v → P (k, v))
      → All P es
      → All P (moved same k es)
  moved-All P k es p h = elim (Option-cases (find same k es)) [
    | inl e ↦ rw e h
    | inr (v, e) ↦ rw e (
        append-All P (removed same k es) ((k, v) ∷ []) (removed-All same same_iff P k es h)
          (p v e, tt))
  ]

  -- A removal after a use.
  pub removed-moved :
      (k : K) (es : List (K × V))
      → Distinct same es
      → removed same k (moved same k es) ≡ removed same k es
  removed-moved k es d = elim (Option-cases (find same k es)) [
    | inl e ↦ rw e refl
    | inr (v, e) ↦ rw e (
        removed-snoc same same_iff k v (removed same k es) (find-removed_same same same_iff k es d))
  ]

  pub find-moved :
      (k : K) (es : List (K × V))
      → Distinct same es
      → find same k (moved same k es) ≡ find same k es
  find-moved k es d = elim (Option-cases (find same k es)) [
    | inl e ↦ rw e e
    | inr (v, e) ↦ rw e (
        find-snoc same same_iff k k v (removed same k es) (find-removed_same same same_iff k es d)
        ∙ rw ((same_iff k k).1 refl) refl)
  ]
