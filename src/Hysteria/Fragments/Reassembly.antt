-- ===== src/Hysteria/Fragments/Reassembly.antt =====
-- A defragger and the fragments of one message (transport/hysteria/core/frag.go).
use mathlib.Core.Path.{fun_ext}
use clash_for_android.Prelude.{
  ℕ, zero, suc, ◌+◌, ◌<◌, ◌≡◌, ◌≢◌, refl, ap, ◌∙◌, Bool, true, false, ◌&&◌, ◌||◌, Option, some,
  List, [], ◌∷◌, Bytes, ◌==◌, if◌then◌else◌, length, get_elem?, All, any, arith, Bool-cases, inl,
  inr,
}
use clash_for_android.Hysteria.UdpMessage.{UdpMessage}
use clash_for_android.Hysteria.Fragments.{Defragger, feed, listed, feed_all}
use clash_for_android.Hysteria.Fragments.Feeding.{
  whole, pieces, arrival, state_at, feed-again, feed-new_if, first-open, feed-first,
}
use clash_for_android.Hysteria.Fragments.Arrivals.{
  full_from, also, nothing, seen_all, full_from-seen, get_elem-numbered, full_from-seen_all,
  also_again, length-numbered,
}

-- The fragments at some numbers.
abbrev pub picked : List UdpMessage → List ℕ → List UdpMessage
picked fs [] = []
picked fs (k ∷ ks) = listed (get_elem? fs k) (picked fs ks)

abbrev pub Below : ℕ → ℕ → Type 0
Below n k = k < n

abbrev when_full : Bool → UdpMessage → List UdpMessage
when_full full m = if full then m ∷ [] else []

feed_all-step :
    (f : UdpMessage) (fs : List UdpMessage) {o : Option UdpMessage} {os : List UdpMessage}
    (d : Defragger) {next last : Defragger}
    → feed f d ≡ some (o, next)
    → feed_all fs next ≡ some (os, last)
    → feed_all (f ∷ fs) d ≡ some (listed o os, last)
unfolding feed_all
feed_all-step f fs d one rest = rw (one, rest) refl

module _ (m : UdpMessage) (ps : List Bytes) (several : 1 < length ps) (byte : length ps < 256) where
  picked-pieces :
      (k : ℕ) (ks : List ℕ)
      → k < length ps
      → picked (pieces m ps) (k ∷ ks) ≡ arrival m ps k ∷ picked (pieces m ps) ks
  picked-pieces k ks h = rw (get_elem-numbered m (length ps) k k 0 ps (omega arith) h) refl

  -- Once the message is complete, no number brings it again.
  run-full :
      (seen : ℕ → Bool) (ks : List ℕ)
      → All (Below (length ps)) ks
      → full_from seen 0 (pieces m ps) ≡ true
      → feed_all (picked (pieces m ps) ks) (state_at m ps seen) ≡ some ([], state_at m ps seen)
  unfolding feed_all
  run-full seen [] h full = refl
  run-full seen (k ∷ ks) h full =
      let inside : k < length (pieces m ps) = rw (length-numbered m (length ps) 0 ps) (h.0) in
      let there = full_from-seen seen k k 0 (pieces m ps) (omega arith) inside full in
      rw (picked-pieces k ks h.0) (
        feed_all-step (arrival m ps k) (picked (pieces m ps) ks) (state_at m ps seen)
          (feed-again m ps several byte seen k h.0 there) (run-full seen ks h.1 full))

  -- Before that, it comes out once, at the last number that was missing.
  run-open :
      (seen : ℕ → Bool) (ks : List ℕ)
      → All (Below (length ps)) ks
      → full_from seen 0 (pieces m ps) ≡ false
      → (d : Defragger) × (feed_all (picked (pieces m ps) ks) (state_at m ps seen)
          ≡ some (when_full (full_from (seen_all seen ks) 0 (pieces m ps)) (whole m ps), d))
  unfolding feed_all
  run-open seen [] h full = (state_at m ps seen, rw full refl)
  run-open seen (k ∷ ks) h full =
      let f = arrival m ps k in
      let fs = picked (pieces m ps) ks in
      let d = state_at m ps seen in
      elim (Bool-cases (seen k)) [
        | inl there ↦
            let same : also seen k ≡ seen = fun_ext (λ j. also_again seen k j there) in
            let go = run-open seen ks h.1 full in
            (
              go.0,
              rw (picked-pieces k ks h.0, same)
                  (feed_all-step f fs d (feed-again m ps several byte seen k h.0 there) go.1),
            )
        | inr missing ↦ elim (Bool-cases (full_from (also seen k) 0 (pieces m ps))) [
          | inl last ↦ (
            state_at m ps (also seen k),
            rw (picked-pieces k ks h.0, full_from-seen_all ks (also seen k) (pieces m ps) last)
                (feed_all-step f fs d (feed-new_if m ps several byte seen k true h.0 missing last)
                  (run-full (also seen k) ks h.1 last)),
          )
          | inr more ↦
              let go = run-open (also seen k) ks h.1 more in
              (
                go.0,
                rw (picked-pieces k ks h.0) (
                    feed_all-step f fs d
                      (feed-new_if m ps several byte seen k false h.0 missing more) go.1),
              )
        ]
      ]

-- Some number from `i` on, as many as `n`, has not arrived.
abbrev pub all_arrived : ℕ → ℕ → List ℕ → Bool
all_arrived zero i ks = true
all_arrived (suc n) i ks = any (◌==◌ i) ks && all_arrived n (i + 1) ks

seen_all-any :
    (ks : List ℕ) (seen : ℕ → Bool) (j : ℕ) → seen_all seen ks j ≡ (seen j || any (◌==◌ j) ks)
seen_all-any [] seen j = ground arith
seen_all-any (k ∷ ks) seen j = ground (arith, seen_all-any ks (also seen k) j)

full_from-all_arrived :
    (ks : List ℕ) (i : ℕ) (fs : List UdpMessage)
    → full_from (seen_all nothing ks) i fs ≡ all_arrived (length fs) i ks
full_from-all_arrived ks i [] = refl
full_from-all_arrived ks i (f ∷ fs) =
    rw (seen_all-any ks nothing i, full_from-all_arrived ks (i + 1) fs) refl

all_arrived-none : (n : ℕ) → 0 < n → all_arrived n 0 [] ≡ false
all_arrived-none zero h = absurd (omega arith)
all_arrived-none (suc n) h = refl

module _ (m : UdpMessage) (ps : List Bytes) (several : 1 < length ps) (byte : length ps < 256) where
  pub feed_all-picked :
      (ks : List ℕ) (d : Defragger)
      → m.msg_id ≢ d.last_id
      → All (Below (length ps)) ks
      → (after : Defragger) × (feed_all (picked (pieces m ps) ks) d
          ≡ some (when_full (all_arrived (length ps) 0 ks) (whole m ps), after))
  unfolding feed_all
  feed_all-picked [] d other h = (d, rw (all_arrived-none (length ps) (omega arith)) refl)
  feed_all-picked (k ∷ ks) d other h =
      let go =
        run-open m ps several byte (also nothing k) ks h.1 (first-open m ps several byte k h.0) in
      let arrived : full_from (seen_all nothing (k ∷ ks)) 0 (pieces m ps)
          ≡ all_arrived (length ps) 0 (k ∷ ks) =
        full_from-all_arrived (k ∷ ks) 0 (pieces m ps)
        ∙ ap (λ (n : ℕ). all_arrived n 0 (k ∷ ks)) (length-numbered m (length ps) 0 ps) in
      (
        go.0,
        rw (picked-pieces m ps several byte k ks h.0, ← arrived)
            (feed_all-step (arrival m ps k) (picked (pieces m ps) ks) d
              (feed-first m ps several byte d k other h.0) go.1),
      )
