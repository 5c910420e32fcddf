-- ===== src/Routing/Retry.antt =====
-- `retry` of clash/tunnel/tunnel.go: the attempts to dial.
use clash_for_android.Prelude.{
  ℕ, zero, suc, ◌+◌, ◌≤◌, ◌<◌, ◌≡◌, refl, Bool, true, false, Result, ok, err, if◌then◌else◌, arith,
  ◌⊎◌, inl, inr, Bool-cases, ltb, subst,
}

-- The errors that `shouldStopRetry` tells apart.
pub data DialFailure : Type 0 where
  ip_not_found ip_version ipv6_disabled reject other : DialFailure

unfoldable pub should_stop_retry : DialFailure → Bool
should_stop_retry ip_not_found = true
should_stop_retry ip_version = true
should_stop_retry ipv6_disabled = true
should_stop_retry reject = true
should_stop_retry other = false

abbrev pub max_attempts : ℕ
max_attempts = 10

module _ {A : Type 0} (wait : ℕ → Bool) (ft : ℕ → Result DialFailure A) where
  abbrev pub judge : ℕ → Result DialFailure A → Result DialFailure A × ℕ → Result DialFailure A × ℕ
  judge i (ok a) rest = (ok a, i + 1)
  judge i (err e) rest =
      if should_stop_retry e then (err e, i + 1) else if wait i then rest else (err e, i + 1)

  -- The loop from the `i`-th attempt on, with `n` attempts left: the last result, and how many
  -- attempts there were. `wait` says whether the pause after an attempt ended before the context.
  unfoldable pub retry_from : ℕ → ℕ → Result DialFailure A → Result DialFailure A × ℕ
  unfolding should_stop_retry
  retry_from zero i last = (last, i)
  retry_from (suc n) i last = let rest = retry_from n (i + 1) (ft i) in judge i (ft i) rest

  -- `retry`; `zero_value` stands for the results before the first attempt.
  unfoldable pub retry : A → Result DialFailure A × ℕ
  unfolding retry_from
  retry zero_value = retry_from max_attempts 0 (ok zero_value)

  -- An attempt after which there is another.
  abbrev pub Again : ℕ → Type 0
  Again i = (e : DialFailure) × (ft i ≡ err e) × (should_stop_retry e ≡ false) × (wait i ≡ true)

  -- Success, an error that stops, or the end of the context.
  abbrev pub Final : ℕ → Type 0
  Final i =
      ((a : A) × (ft i ≡ ok a))
      ⊎ ((e : DialFailure) × (ft i ≡ err e) × ((should_stop_retry e ≡ true) ⊎ (wait i ≡ false)))

  pub record Ended (n i : ℕ) (r : Result DialFailure A × ℕ) : Type 0 where
    pub at : ℕ
    pub from : i ≤ at
    pub below : at < i + n
    pub result : r ≡ (ft at, at + 1)
    pub again : (j : ℕ) → i ≤ j → j < at → Again j
    pub final : (at + 1 ≡ i + n) ⊎ Final at

module _ {A : Type 0} (wait : ℕ → Bool) (ft : ℕ → Result DialFailure A) where
  Ended-stop : (n i : ℕ) → Final wait ft i → Ended wait ft (suc n) i (ft i, i + 1)
  Ended-stop n i f = record {
    at = i;
    from = omega arith;
    below = omega arith;
    result = refl;
    again = λ j a b. absurd (omega arith);
    final = inr f;
  }

  Ended-Again :
      (n i : ℕ) (r : Result DialFailure A × ℕ)
      → Again wait ft i
      → Ended wait ft n (i + 1) r
      → Ended wait ft (suc n) i r
  Ended-Again n i r g d = record {
    at = d.at;
    from = omega (arith, d.from);
    below = omega (arith, d.below);
    result = d.result;
    again = λ j a b. again_at j a (d.again j) b;
    final = last d.final;
  }
    where
      again_at :
          (j : ℕ) → i ≤ j → (i + 1 ≤ j → j < d.at → Again wait ft j) → j < d.at → Again wait ft j
      again_at j a k b = elim (Bool-cases (ltb i j)) [
        | inl lt ↦ k (ground arith) b
        | inr ge ↦ let same : i ≡ j = ground arith in subst (Again wait ft) same g
      ]

      last :
          (d.at + 1 ≡ i + 1 + n) ⊎ Final wait ft d.at → (d.at + 1 ≡ i + suc n) ⊎ Final wait ft d.at
      last (inl e) = inl (omega arith)
      last (inr f) = inr f

  Ended-turn :
      (n i : ℕ) (r : Result DialFailure A × ℕ) (x : Result DialFailure A)
      → ft i ≡ x
      → (Again wait ft i → Ended wait ft (suc n) i r)
      → Ended wait ft (suc n) i (judge wait ft i x r)
  Ended-turn n i r (ok a) e k =
      subst (λ (y : Result DialFailure A). Ended wait ft (suc n) i (y, i + 1)) e
        (Ended-stop n i (inl (a, e)))
  Ended-turn n i r (err x) e k = elim (Bool-cases (should_stop_retry x)) [
    | inl s ↦ rw s (
        subst (λ (y : Result DialFailure A). Ended wait ft (suc n) i (y, i + 1)) e
          (Ended-stop n i (inr (x, e, inl s))))
    | inr s ↦ elim (Bool-cases (wait i)) [
      | inl w ↦ rw (s, w) (k (x, e, s, w))
      | inr w ↦
          rw (s, w)
            (subst (λ (y : Result DialFailure A). Ended wait ft (suc n) i (y, i + 1)) e
              (Ended-stop n i (inr (x, e, inr w))))
    ]
  ]

  Ended-last : (i : ℕ) → Ended wait ft 1 i (ft i, i + 1)
  Ended-last i = record {
    at = i;
    from = omega arith;
    below = omega arith;
    result = refl;
    again = λ j a b. absurd (omega arith);
    final = inl refl;
  }

  retry_from-Ended :
      (n i : ℕ) (last : Result DialFailure A)
      → Ended wait ft (suc n) i (retry_from wait ft (suc n) i last)
  unfolding retry_from
  retry_from-Ended zero i last = Ended-turn 0 i (ft i, i + 1) (ft i) refl (λ g. Ended-last i)
  retry_from-Ended (suc n) i last =
      Ended-turn (suc n) i (retry_from wait ft (suc n) (i + 1) (ft i)) (ft i) refl (λ g.
        Ended-Again (suc n) i (retry_from wait ft (suc n) (i + 1) (ft i)) g
          (retry_from-Ended n (i + 1) (ft i)))

  -- A dial is tried at least once and at most ten times, and the result is that of the last
  -- attempt: each one before it failed with an error that does not stop, and its pause ended before
  -- the context. The last one is the tenth, or it succeeded, failed with an error that stops, or its
  -- pause was cut off.
  pub retry_lem : (zero_value : A) → Ended wait ft 10 0 (retry wait ft zero_value)
  unfolding retry
  retry_lem zero_value = retry_from-Ended 9 0 (ok zero_value)
