-- ===== src/Rules/Payload/Nested.antt =====
-- Payloads with nested parentheses, and what the scan of `format` makes of them
-- (rules/logic/logic.go).
use mathlib.Core.List.{append_assoc, append-nil}
use clash_for_android.Prelude.{
  ℕ, ◌+◌, ◌≡◌, refl, ap, ◌∙◌, false, List, [], ◌∷◌, ◌++◌, Bytes, ◌==◌, length, length-append, arith,
}
use clash_for_android.Rules.Payload.{Range, Scan, open_at, scan}

-- A text with parentheses: a character or a group in parentheses, and what follows.
pub data Forest : Type 0 where
  leaf : Forest
  text : ℕ → Forest → Forest
  group : Forest → Forest → Forest

abbrev pub print : Forest → Bytes
print leaf = []
print (text c f) = c ∷ print f
print (group g f) = b'(' ∷ (print g ++ (b')' ∷ print f))

-- The characters of the text are no parentheses.
abbrev pub IsPlain : Forest → Type 0
IsPlain leaf = Unit
IsPlain (text c f) = ((c == b'(') ≡ false) × ((c == b')') ≡ false) × IsPlain f
IsPlain (group g f) = IsPlain g × IsPlain f

abbrev pub size : Forest → ℕ
size leaf = 0
size (text c f) = size f
size (group g f) = 1 + size g + size f

abbrev pub range_at : ℕ → ℕ → Forest → Range
range_at i k g = record { start = i; end_at = i + 1 + length (print g); index = k }

-- The ranges of the groups of a text that starts at `i`, numbered from `k`, in the order in which
-- they close, and in the order in which they open.
abbrev pub closing : ℕ → ℕ → Forest → List Range
closing i k leaf = []
closing i k (text c f) = closing (i + 1) k f
closing i k (group g f) =
    closing (i + 1) (k + 1) g
    ++ (range_at i k g ∷ closing (i + 1 + length (print g) + 1) (k + 1 + size g) f)

abbrev pub opening : ℕ → ℕ → Forest → List Range
opening i k leaf = []
opening i k (text c f) = opening (i + 1) k f
opening i k (group g f) =
    range_at i k g
    ∷ (opening (i + 1) (k + 1) g ++ opening (i + 1 + length (print g) + 1) (k + 1 + size g) f)

pub scan-print :
    (f : Forest) (i : ℕ) (rest : Bytes) (s : Scan)
    → IsPlain f
    → scan i (print f ++ rest) s
      ≡ scan
          (i + length (print f))
          rest
          (record s { num = s.num + size f; sub_ranges = s.sub_ranges ++ closing i s.num f })
scan-print leaf i rest s h =
    let e : i ≡ i + 0 = omega arith in
    let n : s.num + 0 ≡ s.num = omega arith in rw (append-nil s.sub_ranges, ← e, n) refl
scan-print (text c f) i rest s h =
    let e : i + 1 + length (print f) ≡ i + length (print (text c f)) = omega arith in
    rw (h.0, h.1)
      (scan-print f (i + 1) rest s h.2
        ∙ ap
            (λ (j : ℕ). scan j rest (record s {
              num = s.num + size f;
              sub_ranges = s.sub_ranges ++ closing (i + 1) s.num f;
            }))
            e)
scan-print (group g f) i rest s h =
    let k = s.num in
    let n = length (print g) in
    let inner = open_at i s in
    let done = s.sub_ranges ++ closing (i + 1) (k + 1) g in
    let after : Scan = record {
      stack = s.stack;
      num = k + 1 + size g;
      sub_ranges = done ++ (range_at i k g ∷ []);
    } in
    let last = closing (i + 1 + n + 1) (k + 1 + size g) f in
    let e1 : scan i (print (group g f) ++ rest) s
        ≡ scan (i + 1) (print g ++ (b')' ∷ (print f ++ rest))) inner =
      ap (λ (x : Bytes). scan (i + 1) x inner) (append_assoc (print g) (b')' ∷ print f) rest) in
    let e2 = scan-print g (i + 1) (b')' ∷ (print f ++ rest)) inner h.0 in
    let e3 = scan-print f (i + 1 + n + 1) rest after h.1 in
    let at_end : i + 1 + n + 1 + length (print f) ≡ i + length (print (group g f)) =
      omega (arith, length-append (print g) (b')' ∷ print f)) in
    let count : k + 1 + size g + size f ≡ k + size (group g f) = omega arith in
    let all : (done ++ (range_at i k g ∷ [])) ++ last ≡ s.sub_ranges ++ closing i k (group g f) =
      append_assoc done (range_at i k g ∷ []) last
      ∙ append_assoc s.sub_ranges (closing (i + 1) (k + 1) g) (range_at i k g ∷ last) in
    e1 ∙ e2 ∙ e3 ∙ (rw (at_end, count, all) refl)
