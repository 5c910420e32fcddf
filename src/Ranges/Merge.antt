-- ===== src/Ranges/Merge.antt =====
-- `Merge` of common/utils/ranges.go: it keeps the accepted numbers and leaves gaps between ranges.
use clash_for_android.Prelude.{
  ℕ, ◌+◌, ◌%◌, ◌^◌, ◌≤◌, ◌<◌, ◌≡◌, refl, ◌∙◌, ap, Bool, true, false, ◌||◌, ◌&&◌, List, [], ◌∷◌, ltb,
  if◌then◌else◌, any, All, arith, inl, inr, ◌⊎◌, Bool-cases,
}
use mathlib.Core.List.{Perm, Permᴰ}
use mathlib.Core.Bool.{Bool-set}
use native.Mathlib.Bridge.{le_prop}
use native.Mathlib.Nat.{mod-eq_of_lt, mod_self}
use clash_for_android.Ranges.{Range, contains, check, merge_into, merge_sorted, merge}

-- A range of `w`-bit numbers, its ends in order.
abbrev pub Valid : ℕ → Range → Type 0
Valid w r = (r.start ≤ r.end) × (r.end < 2 ^ w)

-- The starts are in order.
abbrev pub Sorted : List Range → Type 0
Sorted [] = Unit
Sorted (r ∷ rs) = All (λ s. r.start ≤ s.start) rs × Sorted rs

-- The first range, if there is one, starts above the number.
abbrev pub After : ℕ → List Range → Type 0
After n [] = Unit
After n (r ∷ rs) = n < r.start

-- Between a range and the next there is a number in neither.
abbrev pub Gapped : List Range → Type 0
Gapped [] = Unit
Gapped (r ∷ rs) = After (r.end + 1) rs × Gapped rs

abbrev pub covered : List Range → ℕ → Bool
covered rs x = any (λ s. contains s x) rs

-- The increment stays below the modulus, or it is the one that wraps round.
wrap : (e m : ℕ) → e < m → ((e + 1) % m ≡ e + 1) ⊎ ((e + 1 ≡ m) × ((e + 1) % m ≡ 0))
wrap e m h = elim (Bool-cases (ltb (e + 1) m)) [
  | inl small ↦ inl (mod-eq_of_lt (ground arith))
  | inr large ↦ let full : e + 1 ≡ m = ground arith in inr (full, rw full (mod_self m))
]

-- The test of the loop says that there is a gap.
apart_iff :
    (w : ℕ) (last r : Range)
    → Valid w last
    → Valid w r
    → (ltb last.end ((last.end + 1) % 2 ^ w) && ltb ((last.end + 1) % 2 ^ w) r.start)
      ≡ ltb (last.end + 1) r.start
apart_iff w last r (a, b) (c, d) = elim (wrap last.end (2 ^ w) b) [
  | inl e ↦ rw e (ground arith)
  | inr (full, e) ↦ rw e (ground arith)
]

-- The last range with `r` joined to it.
abbrev joined : Range → Range → Range
joined last r = if ltb last.end r.end then record last { end = r.end } else last

contains-joined :
    (last r : Range) (x : ℕ)
    → last.start ≤ last.end
    → r.start ≤ r.end
    → last.start ≤ r.start
    → r.start ≤ last.end + 1
    → contains (joined last r) x ≡ (contains last x || contains r x)
unfolding contains
contains-joined last r x a b c d = ground arith

All-joined :
    (last r : Range) (rs : List Range)
    → All (λ s. last.start ≤ s.start) rs
    → All (λ s. (joined last r).start ≤ s.start) rs
All-joined last r [] h = tt
All-joined last r (s ∷ rs) (h, hs) = (ground arith, All-joined last r rs hs)

joined-Valid : (w : ℕ) (last r : Range) → Valid w last → Valid w r → Valid w (joined last r)
joined-Valid w last r (a, b) (c, d) = (ground arith, ground arith)

||-assoc : (a b c : Bool) → ((a || b) || c) ≡ (a || (b || c))
||-assoc true b c = refl
||-assoc false b c = refl

||-swap : (a b c : Bool) → (a || (b || c)) ≡ (b || (a || c))
||-swap true b c = ground arith
||-swap false b c = refl

merge_into-covered :
    (w : ℕ) (last : Range) (rs : List Range) (x : ℕ)
    → Valid w last
    → All (Valid w) rs
    → Sorted (last ∷ rs)
    → covered (merge_into w last rs) x ≡ covered (last ∷ rs) x
unfolding merge_into
merge_into-covered w last [] x v vs sorted = refl
merge_into-covered w last (r ∷ rs) x v (u, us) ((le, les), (first, rest)) =
    elim (Bool-cases (ltb (last.end + 1) r.start)) [
      | inl gap ↦
          rw (apart_iff w last r v u, gap)
            (ap (λ b. contains last x || b) (merge_into-covered w r rs x u us (first, rest)))
      | inr touch ↦
          rw (apart_iff w last r v u, touch)
            (merge_into-covered w (joined last r) rs x (joined-Valid w last r v u) us
                (All-joined last r rs les, rest)
              ∙ ap (λ b. b || covered rs x) (contains-joined last r x v.0 u.0 le (ground arith))
              ∙ ||-assoc (contains last x) (contains r x) (covered rs x))
    ]

turn-After :
    (apart : Bool) (w n : ℕ) (last r : Range) (rs : List Range)
    → n < last.start
    → ((l : Range) → n < l.start → After n (merge_into w l rs))
    → After n (
        let rest = merge_into w (if apart then r else joined last r) rs in
        if apart then last ∷ rest else rest)
turn-After true w n last r rs h k = h
turn-After false w n last r rs h k = k (joined last r) (ground arith)

merge_into-After :
    (w n : ℕ) (last : Range) (rs : List Range) → n < last.start → After n (merge_into w last rs)
unfolding merge_into
merge_into-After w n last [] h = h
merge_into-After w n last (r ∷ rs) h =
    turn-After (ltb last.end ((last.end + 1) % 2 ^ w) && ltb ((last.end + 1) % 2 ^ w) r.start) w n
      last r rs h (λ l. merge_into-After w n l rs)

merge_into-Gapped :
    (w : ℕ) (last : Range) (rs : List Range)
    → Valid w last
    → All (Valid w) rs
    → Gapped (merge_into w last rs)
unfolding merge_into
merge_into-Gapped w last [] v vs = (tt, tt)
merge_into-Gapped w last (r ∷ rs) v (u, us) = elim (Bool-cases (ltb (last.end + 1) r.start)) [
  | inl gap ↦
      rw (apart_iff w last r v u, gap)
        (merge_into-After w (last.end + 1) r rs (ground arith), merge_into-Gapped w r rs u us)
  | inr touch ↦
      rw (apart_iff w last r v u, touch)
        (merge_into-Gapped w (joined last r) rs (joined-Valid w last r v u) us)
]

covered-perm : {rs ss : List Range} (x : ℕ) → Permᴰ rs ss → covered rs x ≡ covered ss x
covered-perm x Permᴰ.nil = refl
covered-perm x (Permᴰ.cons {b = b} e p) = rw e (ap (λ c. contains b x || c) (covered-perm x p))
covered-perm x (Permᴰ.swap {a' = a'} {b' = b'} {l = l} e f) =
    rw (e, f) (||-swap (contains b' x) (contains a' x) (covered l x))
covered-perm x (Permᴰ.trans p q) = covered-perm x p ∙ covered-perm x q

All-Valid-perm : (w : ℕ) {rs ss : List Range} → Permᴰ rs ss → All (Valid w) ss → All (Valid w) rs
All-Valid-perm w Permᴰ.nil h = tt
All-Valid-perm w (Permᴰ.cons e p) (v, vs) = (rw e v, All-Valid-perm w p vs)
All-Valid-perm w (Permᴰ.swap e f) (u, (v, vs)) = (rw e v, (rw f u, vs))
All-Valid-perm w (Permᴰ.trans p q) h = All-Valid-perm w p (All-Valid-perm w q h)

merge_sorted-covered :
    (w : ℕ) (rs : List Range) (x : ℕ)
    → All (Valid w) rs
    → Sorted rs
    → covered (merge_sorted w rs) x ≡ covered rs x
merge_sorted-covered w [] x vs sorted = refl
merge_sorted-covered w (r ∷ rs) x (v, vs) sorted = merge_into-covered w r rs x v vs sorted

merge_sorted-Gapped : (w : ℕ) (rs : List Range) → All (Valid w) rs → Gapped (merge_sorted w rs)
merge_sorted-Gapped w [] vs = tt
merge_sorted-Gapped w (r ∷ rs) (v, vs) = merge_into-Gapped w r rs v vs

-- A list that covers some number is not empty, so that `check` says what it covers.
check-covered : (rs : List Range) (x y : ℕ) → covered rs y ≡ true → check rs x ≡ covered rs x
unfolding check
check-covered [] x y h = cc
check-covered (r ∷ rs) x y h = refl

covered-start : (w : ℕ) (r : Range) (rs : List Range) → Valid w r → covered (r ∷ rs) r.start ≡ true
unfolding contains
covered-start w r rs v = ground arith

merge_sorted-check :
    (w : ℕ) (r : Range) (rs ss : List Range) (x : ℕ)
    → Permᴰ ss (r ∷ rs)
    → All (Valid w) (r ∷ rs)
    → Sorted ss
    → check (merge_sorted w ss) x ≡ covered (r ∷ rs) x
merge_sorted-check w r rs ss x p vs sorted =
    let valid = All-Valid-perm w p vs in
    let kept = λ (y : ℕ). merge_sorted-covered w ss y valid sorted ∙ covered-perm y p in
    check-covered (merge_sorted w ss) x r.start (kept r.start ∙ covered-start w r rs vs.0) ∙ kept x

-- Merging valid ranges accepts the same numbers as before, whichever order sorting gives to ranges
-- of the same start.
pub check-merge :
    (w : ℕ) (sort : List Range → List Range) (rs : List Range) (x : ℕ)
    → Perm (sort rs) rs
    → Sorted (sort rs)
    → All (Valid w) rs
    → check (merge w sort rs) x ≡ check rs x
unfolding merge check
check-merge w sort [] x p sorted vs = refl
check-merge w sort (r ∷ rs) x p sorted vs =
    ∥∥₁_rec (Bool-set _ _) (λ q. merge_sorted-check w r rs (sort (r ∷ rs)) x q vs sorted) p

After-prop : (n : ℕ) (rs : List Range) → IsProp (After n rs)
After-prop n [] = hlevel
After-prop n (r ∷ rs) = le_prop

Gapped-prop : (rs : List Range) → IsProp (Gapped rs)
Gapped-prop [] = hlevel
Gapped-prop (r ∷ rs) = hlevel (After-prop (r.end + 1) rs, Gapped-prop rs)

-- After merging valid ranges there is a number in no range between any two neighbours, so that the
-- ranges are in order and no two of them could be one.
pub merge-Gapped :
    (w : ℕ) (sort : List Range → List Range) (rs : List Range)
    → Perm (sort rs) rs
    → All (Valid w) rs
    → Gapped (merge w sort rs)
unfolding merge
merge-Gapped w sort [] p vs = tt
merge-Gapped w sort (r ∷ rs) p vs =
    ∥∥₁_rec (Gapped-prop (merge_sorted w (sort (r ∷ rs))))
      (λ q. merge_sorted-Gapped w (sort (r ∷ rs)) (All-Valid-perm w q vs)) p
