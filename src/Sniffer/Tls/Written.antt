-- ===== src/Sniffer/Tls/Written.antt =====
-- Reading back what was written: indices, slices and the loops over what is left of a slice
-- (component/sniffer/tls_sniffer.go).
use mathlib.Core.List.{append_assoc}
use clash_for_android.Prelude.{
  ℕ, zero, suc, ◌+◌, ◌/◌, ◌%◌, ◌≤◌, ◌<◌, ◌≡◌, refl, sym, ap, ◌∙◌, true, List, [], ◌∷◌, ◌++◌, Bytes,
  some, leb, length, arith, All, length-append, take-append, drop-append,
}
use clash_for_android.Sniffer.Sniffed.{
  Sniffed, returned, ◌>>=◌, at, slice_from, slice_to, word_at, Pass, return_with, go_on,
  while_bytes, continue,
}
use clash_for_android.Sniffer.Tls.Message.{word, write_all}

pub at-append : (n b : ℕ) (a r : Bytes) → length a ≡ n → at n (a ++ (b ∷ r)) ≡ returned b
unfolding at
at-append zero b [] r e = refl
at-append (suc n) b [] r e = absurd (omega arith)
at-append zero b (x ∷ a) r e = absurd (omega arith)
at-append (suc n) b (x ∷ a) r e = at-append n b a r (omega arith)

pub slice_from-append : (n : ℕ) (a r : Bytes) → length a ≡ n → slice_from n (a ++ r) ≡ returned r
unfolding slice_from
slice_from-append n a r e =
    let fits : leb (length a) (length (a ++ r)) ≡ true = ground (arith, length-append a r) in
    rw (← e, fits) (ap returned (drop-append a r))

pub slice_to-append : (n : ℕ) (a r : Bytes) → length a ≡ n → slice_to n (a ++ r) ≡ returned a
unfolding slice_to
slice_to-append n a r e =
    let fits : leb (length a) (length (a ++ r)) ≡ true = ground (arith, length-append a r) in
    rw (← e, fits) (ap returned (take-append a r))

-- Reading back a number of two bytes.
pub word_at-word : (i n : ℕ) (a r : Bytes) → length a ≡ i → word_at i (a ++ word n r) ≡ returned n
word_at-word i n a r e =
    let low : at (i + 1) (a ++ word n r) ≡ returned (n % 256) =
      ap (at (i + 1)) (sym (append_assoc a (n / 256 ∷ []) (n % 256 ∷ r)))
      ∙ at-append (i + 1) (n % 256) (a ++ (n / 256 ∷ [])) r
          (omega (arith, e, length-append a (n / 256 ∷ []))) in
    rw (at-append i (n / 256) a (n % 256 ∷ r) e, low) (ap returned (omega arith))

module _ {A E : Type 0} (body : Bytes → Sniffed (Pass A)) (write : E → Bytes → Bytes) where
  -- The loop's body goes past what is written.
  abbrev pub Skips : E → Type 0
  Skips x = (r : Bytes) → (length r < length (write x r)) × (body (write x r) ≡ returned (go_on r))

  while_bytes-step :
      (fuel : ℕ) (d : Bytes)
      → 0 < length d
      → while_bytes body (suc fuel) d ≡ (body d >>= continue (while_bytes body fuel))
  unfolding while_bytes
  while_bytes-step fuel [] h = absurd (omega arith)
  while_bytes-step fuel (b ∷ d) h = refl

  while_bytes-write_all :
      (xs : List E) (tail : Bytes) (a : A) (fuel : ℕ)
      → All Skips xs
      → 0 < length tail
      → body tail ≡ returned (return_with a)
      → length xs < fuel
      → while_bytes body fuel (write_all write xs tail) ≡ returned (some a)
  while_bytes-write_all xs tail a zero s t e h = absurd (omega arith)
  while_bytes-write_all [] tail a (suc fuel) s t e h = while_bytes-step fuel tail t ∙ rw e refl
  while_bytes-write_all (x ∷ xs) tail a (suc fuel) s t e h =
      let (longer, skip) = s.0 (write_all write xs tail) in
      while_bytes-step fuel (write x (write_all write xs tail)) (omega (arith, longer))
      ∙ rw skip (while_bytes-write_all xs tail a fuel s.1 t e (omega arith))

  length-write_all :
      (xs : List E) (tail : Bytes)
      → All Skips xs
      → length xs + length tail ≤ length (write_all write xs tail)
  length-write_all [] tail s = omega arith
  length-write_all (x ∷ xs) tail s =
      omega (arith, (s.0 (write_all write xs tail)).0, length-write_all xs tail s.1)

  -- As much fuel as there are bytes is enough.
  pub while_bytes-finds :
      (xs : List E) (tail : Bytes) (a : A)
      → All Skips xs
      → 0 < length tail
      → body tail ≡ returned (return_with a)
      → while_bytes body (length (write_all write xs tail)) (write_all write xs tail)
        ≡ returned (some a)
  while_bytes-finds xs tail a s t e =
      while_bytes-write_all xs tail a (length (write_all write xs tail)) s t e
        (omega (arith, length-write_all xs tail s, t))
