-- ===== src/Rules/Payload/Sorted.antt =====
-- The ranges that `format` gives, in the order in which they open (rules/logic/logic.go).
use mathlib.Core.List.{append_assoc, append-nil}
use clash_for_android.Prelude.{
  ℕ, zero, suc, ◌+◌, ◌≡◌, refl, sym, ap, ◌∙◌, some, List, [], ◌∷◌, ◌++◌, Bytes, length,
  length-append, arith,
}
use clash_for_android.Rules.Payload.{
  Range, scan, set_at, no_range, zeros, put_in_order, all_closed, format,
}
use clash_for_android.Rules.Payload.Nested.{
  Forest, leaf, text, group, print, IsPlain, size, range_at, closing, opening, scan-print,
}

length-opening : (i k : ℕ) (f : Forest) → length (opening i k f) ≡ size f
length-opening i k leaf = refl
length-opening i k (text c f) = length-opening (i + 1) k f
length-opening i k (group g f) =
    let j = i + 1 + length (print g) + 1 in
    omega (
      arith,
      length-append (opening (i + 1) (k + 1) g) (opening j (k + 1 + size g) f),
      length-opening (i + 1) (k + 1) g,
      length-opening j (k + 1 + size g) f,
    )

zeros-append : (xs ys : List Range) → zeros (xs ++ ys) ≡ zeros xs ++ zeros ys
zeros-append [] ys = refl
zeros-append (x ∷ xs) ys = ap (◌∷◌ no_range) (zeros-append xs ys)

zeros-middle : (xs ys : List Range) → zeros xs ++ (no_range ∷ ys) ≡ no_range ∷ (zeros xs ++ ys)
zeros-middle [] ys = refl
zeros-middle (x ∷ xs) ys = ap (◌∷◌ no_range) (zeros-middle xs ys)

zeros-closing : (i k : ℕ) (f : Forest) → zeros (closing i k f) ≡ zeros (opening i k f)
zeros-closing i k leaf = refl
zeros-closing i k (text c f) = zeros-closing (i + 1) k f
zeros-closing i k (group g f) =
    let j = i + 1 + length (print g) + 1 in
    let n = k + 1 + size g in
    rw
      (
        zeros-append (closing (i + 1) (k + 1) g) (range_at i k g ∷ closing j n f),
        zeros-append (opening (i + 1) (k + 1) g) (opening j n f),
        zeros-closing (i + 1) (k + 1) g,
        zeros-closing j n f,
      )
      (zeros-middle (opening (i + 1) (k + 1) g) (zeros (opening j n f)))

set_at-append :
    (k : ℕ) (r x : Range) (pre suf : List Range)
    → length pre ≡ k
    → set_at k r (pre ++ (x ∷ suf)) ≡ pre ++ (r ∷ suf)
set_at-append zero r x [] suf e = refl
set_at-append (suc k) r x [] suf e = absurd (omega arith)
set_at-append zero r x (p ∷ pre) suf e = absurd (omega arith)
set_at-append (suc k) r x (p ∷ pre) suf e = ap (◌∷◌ p) (set_at-append k r x pre suf (omega arith))

put_in_order-closing :
    (f : Forest) (i k : ℕ) (more pre suf : List Range)
    → length pre ≡ k
    → put_in_order (closing i k f ++ more) (pre ++ (zeros (opening i k f) ++ suf))
      ≡ put_in_order more (pre ++ (opening i k f ++ suf))
put_in_order-closing leaf i k more pre suf e = refl
put_in_order-closing (text c f) i k more pre suf e = put_in_order-closing f (i + 1) k more pre suf e
put_in_order-closing (group g f) i k more pre suf e =
    let j = i + 1 + length (print g) + 1 in
    let n = k + 1 + size g in
    let cg = closing (i + 1) (k + 1) g in
    let cf = closing j n f in
    let og = opening (i + 1) (k + 1) g in
    let of = opening j n f in
    let r = range_at i k g in
    let rest = zeros of ++ suf in
    let e1 : put_in_order ((cg ++ (r ∷ cf)) ++ more) (pre ++ (zeros (r ∷ (og ++ of)) ++ suf))
        ≡ put_in_order (cg ++ (r ∷ (cf ++ more))) ((pre ++ (no_range ∷ [])) ++ (zeros og ++ rest)) =
      rw (zeros-append og of) (simp append_assoc) in
    let e2 =
      put_in_order-closing g (i + 1) (k + 1) (r ∷ (cf ++ more)) (pre ++ (no_range ∷ [])) rest
        (omega (arith, length-append pre (no_range ∷ []), e)) in
    let e3 : put_in_order (cf ++ more) (set_at k r ((pre ++ (no_range ∷ [])) ++ (og ++ rest)))
        ≡ put_in_order (cf ++ more) ((pre ++ (r ∷ og)) ++ rest) =
      ap (put_in_order (cf ++ more)) (
        ap (set_at k r) (append_assoc pre (no_range ∷ []) (og ++ rest))
        ∙ set_at-append k r no_range pre (og ++ rest) e
        ∙ sym (append_assoc pre (r ∷ og) rest)) in
    let e4 =
      put_in_order-closing f j n more (pre ++ (r ∷ og)) suf
        (omega (arith, length-append pre (r ∷ og), length-opening (i + 1) (k + 1) g, e)) in
    let e5 : put_in_order more ((pre ++ (r ∷ og)) ++ (of ++ suf))
        ≡ put_in_order more (pre ++ ((r ∷ (og ++ of)) ++ suf)) =
      simp append_assoc in
    e1 ∙ e2 ∙ e3 ∙ e4 ∙ e5

-- The ranges of a text with matching parentheses are those of its groups.
pub format-print : (f : Forest) → IsPlain f → format (print f) ≡ some (opening 0 0 f)
unfolding format
format-print f h =
    let scanned = scan-print f 0 [] (record { stack = []; num = 0; sub_ranges = [] }) h in
    let placed = put_in_order-closing f 0 0 [] [] [] refl in
    let whole : put_in_order (closing 0 0 f) (zeros (closing 0 0 f)) ≡ opening 0 0 f =
      rw (zeros-closing 0 0 f) (
        sym (
          ap (λ (x : List Range). put_in_order x (zeros (opening 0 0 f)))
            (append-nil (closing 0 0 f)))
        ∙ sym (ap (put_in_order (closing 0 0 f ++ [])) (append-nil (zeros (opening 0 0 f))))
        ∙ placed
        ∙ append-nil (opening 0 0 f)) in
    ap (λ (x : Bytes). all_closed (scan 0 x (record { stack = []; num = 0; sub_ranges = [] })))
      (sym (append-nil (print f)))
    ∙ ap all_closed scanned
    ∙ ap some whole
