-- ===== src/FakeIp/Recency/Turned.antt =====
-- Entries of two LRU caches that hold the same pairs the other way round
-- (component/fakeip/memory.go).
use mathlib.Core.Option.{some_inj}
use clash_for_android.Prelude.{
  ◌≡◌, refl, sym, ap, ◌∙◌, ◌↔◌, Bool, true, false, List, [], ◌∷◌, ◌++◌, none, some, Bool-cases, inl,
  inr, none-ne-some,
}
use clash_for_android.FakeIp.Recency.{find, removed, moved, Distinct, swapped, swapped-append}

-- Two lists of the same pairs.
module _ {K V : Type 0} (same : K → K → Bool) (same_iff : (a b : K) → (same a b ≡ true) ↔ (a ≡ b))
    (alike : V → V → Bool) (alike_iff : (a b : V) → (alike a b ≡ true) ↔ (a ≡ b)) where
  apart :
      (v w : V) (es : List (V × K)) (k : K)
      → find alike v es ≡ none
      → find alike w es ≡ some k
      → alike v w ≡ false
  apart v w es k gone there = elim (Bool-cases (alike v w)) [
    | inl t ↦
        absurd
          (none-ne-some (ap (λ (x : V). find alike x es) (sym ((alike_iff v w).0 t)) ∙ gone) there)
    | inr f ↦ f
  ]

  pub find-swapped :
      (k : K) (v : V) (es : List (K × V))
      → Distinct alike (swapped es)
      → find same k es ≡ some v
      → find alike v (swapped es) ≡ some k
  find-swapped k v [] d h = absurd (none-ne-some refl h)
  find-swapped k v (e ∷ es) d h = elim (Bool-cases (same e.0 k)) [
    | inl t ↦
        let value : e.1 ≡ v = some_inj.0 (rw t at h) in
        let here : alike e.1 v ≡ true = (alike_iff e.1 v).1 value in
        rw here (ap some ((same_iff e.0 k).0 t))
    | inr f ↦
        let rest = find-swapped k v es d.1 (rw f at h) in
        let other = apart e.1 v (swapped es) k d.0 rest in rw other rest
  ]

  pub removed-swapped :
      (k : K) (v : V) (es : List (K × V))
      → Distinct alike (swapped es)
      → find same k es ≡ some v
      → swapped (removed same k es) ≡ removed alike v (swapped es)
  removed-swapped k v [] d h = absurd (none-ne-some refl h)
  removed-swapped k v (e ∷ es) d h = elim (Bool-cases (same e.0 k)) [
    | inl t ↦
        let here : alike e.1 v ≡ true = (alike_iff e.1 v).1 (some_inj.0 (rw t at h)) in
        rw (t, here) refl
    | inr f ↦
        let found = rw f at h in
        let other = apart e.1 v (swapped es) k d.0 (find-swapped k v es d.1 found) in
        rw (f, other) (ap (◌∷◌ (e.1, e.0)) (removed-swapped k v es d.1 found))
  ]

  -- Both lists are used at the same pair.
  pub moved-swapped :
      (k : K) (v : V) (es : List (K × V))
      → Distinct alike (swapped es)
      → find same k es ≡ some v
      → swapped (moved same k es) ≡ moved alike v (swapped es)
  moved-swapped k v es d h =
      rw (h, find-swapped k v es d h)
        (swapped-append (removed same k es) ((k, v) ∷ [])
          ∙ ap (λ (x : List (V × K)). x ++ ((v, k) ∷ [])) (removed-swapped k v es d h))
