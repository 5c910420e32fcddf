-- ===== src/Hysteria/Fragments/Arrivals.antt =====
-- The fragments of a message in any order (transport/hysteria/core/frag.go).
use clash_for_android.Prelude.{
  ℕ, zero, suc, ◌+◌, ◌≤◌, ◌<◌, ◌≡◌, refl, sym, ap, ◌∙◌, Bool, true, false, ◌&&◌, ◌||◌, Option, none,
  some, List, [], ◌∷◌, ◌++◌, Bytes, ◌==◌, if◌then◌else◌, length, get_elem?, arith, Bool-cases, inl,
  inr,
}
use clash_for_android.Hysteria.UdpMessage.{UdpMessage}
use clash_for_android.Hysteria.Fragments.{fragment, empty_slots, fill_slot, joined_data}

-- Fragments of a message, numbered from `i`, for pieces of its data.
abbrev pub numbered : UdpMessage → ℕ → ℕ → List Bytes → List UdpMessage
numbered m n i [] = []
numbered m n i (p ∷ ps) = fragment m n i p ∷ numbered m n (i + 1) ps

abbrev pub joined : List Bytes → Bytes
joined [] = []
joined (p ∷ ps) = p ++ joined ps

-- The slots in which the numbers that are seen have their fragments.
abbrev pub slots : (ℕ → Bool) → ℕ → List UdpMessage → List (Option UdpMessage)
slots seen i [] = []
slots seen i (f ∷ fs) = (if seen i then some f else none) ∷ slots seen (i + 1) fs

abbrev pub full_from : (ℕ → Bool) → ℕ → List UdpMessage → Bool
full_from seen i [] = true
full_from seen i (f ∷ fs) = seen i && full_from seen (i + 1) fs

abbrev pub seen_count : (ℕ → Bool) → ℕ → List UdpMessage → ℕ
seen_count seen i [] = 0
seen_count seen i (f ∷ fs) = let n = seen_count seen (i + 1) fs in if seen i then suc n else n

abbrev pub also : (ℕ → Bool) → ℕ → ℕ → Bool
also seen k j = seen j || k == j

pub length-slots :
    (seen : ℕ → Bool) (i : ℕ) (fs : List UdpMessage) → length (slots seen i fs) ≡ length fs
length-slots seen i [] = refl
length-slots seen i (f ∷ fs) = ap suc (length-slots seen (i + 1) fs)

pub seen_count_le :
    (seen : ℕ → Bool) (i : ℕ) (fs : List UdpMessage) → seen_count seen i fs ≤ length fs
seen_count_le seen i [] = omega arith
seen_count_le seen i (f ∷ fs) = ground (arith, seen_count_le seen (i + 1) fs)

-- As many are seen as there are fragments exactly if all are.
pub seen_count-full :
    (seen : ℕ → Bool) (i : ℕ) (fs : List UdpMessage)
    → (seen_count seen i fs == length fs) ≡ full_from seen i fs
seen_count-full seen i [] = refl
seen_count-full seen i (f ∷ fs) = elim (Bool-cases (seen i)) [
  | inl there ↦ rw there (ground (arith, seen_count-full seen (i + 1) fs))
  | inr missing ↦ rw missing (ground (arith, seen_count_le seen (i + 1) fs))
]

-- A number below the first one changes nothing.
slots-below :
    (seen : ℕ → Bool) (k i : ℕ) (fs : List UdpMessage)
    → k < i
    → slots (also seen k) i fs ≡ slots seen i fs
slots-below seen k i [] h = refl
slots-below seen k i (f ∷ fs) h =
    let other : (k == i) ≡ false = ground arith in ground (arith, slots-below seen k (i + 1) fs)

full_from-below :
    (seen : ℕ → Bool) (k i : ℕ) (fs : List UdpMessage)
    → k < i
    → full_from (also seen k) i fs ≡ full_from seen i fs
full_from-below seen k i [] h = refl
full_from-below seen k i (f ∷ fs) h = ground (arith, full_from-below seen k (i + 1) fs)

seen_count-below :
    (seen : ℕ → Bool) (k i : ℕ) (fs : List UdpMessage)
    → k < i
    → seen_count (also seen k) i fs ≡ seen_count seen i fs
seen_count-below seen k i [] h = refl
seen_count-below seen k i (f ∷ fs) h = ground (arith, seen_count-below seen k (i + 1) fs)

pub seen_count-also :
    (seen : ℕ → Bool) (j k i : ℕ) (fs : List UdpMessage)
    → j ≡ i + k
    → seen j ≡ false
    → k < length fs
    → seen_count (also seen j) i fs ≡ suc (seen_count seen i fs)
seen_count-also seen j k i [] e h lt = absurd (omega arith)
seen_count-also seen j zero i (f ∷ fs) e h lt =
    let here : j ≡ i = omega arith in
    let new : seen i ≡ false = ap seen (sym here) ∙ h in
    let same : (j == i) ≡ true = ground arith in
    rw (new, same) (ap suc (seen_count-below seen j (i + 1) fs (omega arith)))
seen_count-also seen j (suc k) i (f ∷ fs) e h lt =
    let other : (j == i) ≡ false = ground arith in
    let rest = seen_count-also seen j k (i + 1) fs (omega arith) h (omega arith) in
    elim (Bool-cases (seen i)) [
      | inl there ↦ rw there (ap suc rest)
      | inr missing ↦ rw (missing, other) rest
    ]

abbrev pub piece_at : List Bytes → ℕ → Bytes
piece_at [] k = []
piece_at (p ∷ ps) zero = p
piece_at (p ∷ ps) (suc k) = piece_at ps k

module _ (m : UdpMessage) (n : ℕ) where
  pub length-numbered : (i : ℕ) (ps : List Bytes) → length (numbered m n i ps) ≡ length ps
  length-numbered i [] = refl
  length-numbered i (p ∷ ps) = ap suc (length-numbered (i + 1) ps)

  pub get_elem-slots :
      (seen : ℕ → Bool) (j k i : ℕ) (ps : List Bytes)
      → j ≡ i + k
      → k < length ps
      → get_elem? (slots seen i (numbered m n i ps)) k
        ≡ some (if seen j then some (fragment m n j (piece_at ps k)) else none)
  get_elem-slots seen j k i [] e h = absurd (omega arith)
  get_elem-slots seen j zero i (p ∷ ps) e h = let here : j ≡ i = omega arith in rw here refl
  get_elem-slots seen j (suc k) i (p ∷ ps) e h =
      get_elem-slots seen j k (i + 1) ps (omega arith) (omega arith)

  pub get_elem-numbered :
      (j k i : ℕ) (ps : List Bytes)
      → j ≡ i + k
      → k < length ps
      → get_elem? (numbered m n i ps) k ≡ some (fragment m n j (piece_at ps k))
  get_elem-numbered j k i [] e h = absurd (omega arith)
  get_elem-numbered j zero i (p ∷ ps) e h = let here : j ≡ i = omega arith in rw here refl
  get_elem-numbered j (suc k) i (p ∷ ps) e h =
      get_elem-numbered j k (i + 1) ps (omega arith) (omega arith)

  pub fill_slot-slots :
      (seen : ℕ → Bool) (j k i : ℕ) (ps : List Bytes)
      → j ≡ i + k
      → k < length ps
      → fill_slot k (fragment m n j (piece_at ps k)) (slots seen i (numbered m n i ps))
        ≡ slots (also seen j) i (numbered m n i ps)
  fill_slot-slots seen j k i [] e h = absurd (omega arith)
  fill_slot-slots seen j zero i (p ∷ ps) e h =
      let here : j ≡ i = omega arith in
      let now : (seen i || j == i) ≡ true = ground arith in
      let first = ap (λ (x : ℕ). some (fragment m n x p)) here in
      rw (now, first, slots-below seen j (i + 1) (numbered m n (i + 1) ps) (omega arith)) refl
  fill_slot-slots seen j (suc k) i (p ∷ ps) e h =
      let other : (seen i || j == i) ≡ seen i = ground arith in
      rw (other, fill_slot-slots seen j k (i + 1) ps (omega arith) (omega arith)) refl

  pub joined_data-slots :
      (seen : ℕ → Bool) (i : ℕ) (ps : List Bytes)
      → full_from seen i (numbered m n i ps) ≡ true
      → joined_data (slots seen i (numbered m n i ps)) ≡ some (joined ps)
  joined_data-slots seen i [] h = refl
  joined_data-slots seen i (p ∷ ps) h = elim (Bool-cases (seen i)) [
    | inl there ↦ rw (there, joined_data-slots seen (i + 1) ps (rw there at h)) refl
    | inr missing ↦ let f = rw missing at h in cc
  ]

-- Nothing has arrived; and what has after some more.
abbrev pub nothing : ℕ → Bool
nothing j = false

abbrev pub seen_all : (ℕ → Bool) → List ℕ → ℕ → Bool
seen_all seen [] = seen
seen_all seen (k ∷ ks) = seen_all (also seen k) ks

pub full_from-also :
    (seen : ℕ → Bool) (k i : ℕ) (fs : List UdpMessage)
    → full_from seen i fs ≡ true
    → full_from (also seen k) i fs ≡ true
full_from-also seen k i [] h = refl
full_from-also seen k i (f ∷ fs) h = elim (Bool-cases (seen i)) [
  | inl there ↦ rw there (full_from-also seen k (i + 1) fs (rw there at h))
  | inr missing ↦ let f = rw missing at h in cc
]

pub full_from-seen_all :
    (ks : List ℕ) (seen : ℕ → Bool) (fs : List UdpMessage)
    → full_from seen 0 fs ≡ true
    → full_from (seen_all seen ks) 0 fs ≡ true
full_from-seen_all [] seen fs h = h
full_from-seen_all (k ∷ ks) seen fs h =
    full_from-seen_all ks (also seen k) fs (full_from-also seen k 0 fs h)

pub also_again : (seen : ℕ → Bool) (k j : ℕ) → seen k ≡ true → also seen k j ≡ seen j
also_again seen k j h = elim (Bool-cases (k == j)) [
  | inl same ↦ let e : k ≡ j = ground arith in rw (← e) (rw h refl)
  | inr other ↦ rw other (ground arith)
]

pub slots-nothing : (i : ℕ) (fs : List UdpMessage) → slots nothing i fs ≡ empty_slots (length fs)
slots-nothing i [] = refl
slots-nothing i (f ∷ fs) = ap (◌∷◌ none) (slots-nothing (i + 1) fs)

pub seen_count-nothing : (i : ℕ) (fs : List UdpMessage) → seen_count nothing i fs ≡ 0
seen_count-nothing i [] = refl
seen_count-nothing i (f ∷ fs) = seen_count-nothing (i + 1) fs

-- The first number is missing.
pub full_from-nothing : (fs : List UdpMessage) → 0 < length fs → full_from nothing 0 fs ≡ false
full_from-nothing [] h = absurd (omega arith)
full_from-nothing (f ∷ fs) h = refl

pub full_from-seen :
    (seen : ℕ → Bool) (j k i : ℕ) (fs : List UdpMessage)
    → j ≡ i + k
    → k < length fs
    → full_from seen i fs ≡ true
    → seen j ≡ true
full_from-seen seen j k i [] e h full = absurd (omega arith)
full_from-seen seen j zero i (f ∷ fs) e h full =
    let here : j ≡ i = omega arith in rw here (ground arith)
full_from-seen seen j (suc k) i (f ∷ fs) e h full =
    full_from-seen seen j k (i + 1) fs (omega arith) (omega arith) (ground arith)
