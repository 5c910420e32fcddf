-- ===== src/Sniffer/Sniffed.antt =====
-- Code that indexes and slices a byte slice: each access that Go would panic on is a value of its
-- own, and so is a loop that has used up its fuel.
use clash_for_android.Prelude.{
  ℕ, zero, suc, ◌+◌, ◌*◌, ◌≤◌, ◌<◌, ◌≡◌, refl, Bool, true, false, [], ◌∷◌, Bytes, Option, none,
  some, leb, if◌then◌else◌, length, ◌⊎◌, take, drop, arith, length-take, get_elem?, inl, inr,
}

-- The errors of component/sniffer/tls_sniffer.go, and ErrNoClue.
pub data SniffError : Type 0 where
  no_clue not_tls not_client_hello : SniffError
  need_at_least_data : ℕ → SniffError

pub data Sniffed (A : Type 0) : Type 0 where
  returned : A → Sniffed A
  failed : SniffError → Sniffed A
  panicked out_of_fuel : Sniffed A

infixl 5 ◌>>=◌ ◌>>◌
abbrev pub ◌>>=◌ : {A B : Type 0} → Sniffed A → (A → Sniffed B) → Sniffed B
returned a >>= k = k a
failed e >>= k = failed e
panicked >>= k = panicked
out_of_fuel >>= k = out_of_fuel

abbrev pub ◌>>◌ : {A B : Type 0} → Sniffed A → Sniffed B → Sniffed B
m >> k = m >>= λ _. k

-- An early return with an error.
abbrev pub fail_if : Bool → SniffError → Sniffed (Unit {0})
fail_if true e = failed e
fail_if false e = returned tt

abbrev checked : {A : Type 0} → Option A → Sniffed A
checked none = panicked
checked (some a) = returned a

-- `d[i]`, `d[n:]` and `d[:n]`
unfoldable pub at : ℕ → Bytes → Sniffed ℕ
at i d = checked (get_elem? d i)

unfoldable pub slice_from : ℕ → Bytes → Sniffed Bytes
slice_from n d = if leb n (length d) then returned (drop n d) else panicked

unfoldable pub slice_to : ℕ → Bytes → Sniffed Bytes
slice_to n d = if leb n (length d) then returned (take n d) else panicked

-- `int(d[i])<<8 | int(d[i+1])`: the two do not overlap, since they are bytes.
abbrev pub word_at : ℕ → Bytes → Sniffed ℕ
word_at i d = do high ← at i d; low ← at (i + 1) d; returned (high * 256 + low)

-- One pass through a loop's body: it returns a value, or goes on with the bytes that are left.
pub data Pass (A : Type 0) : Type 0 where
  return_with : A → Pass A
  go_on : Bytes → Pass A

-- `for len(d) != 0 { ... }`; `none` is the end of the loop.
abbrev pub continue : {A : Type 0} → (Bytes → Sniffed (Option A)) → Pass A → Sniffed (Option A)
continue loop (return_with a) = returned (some a)
continue loop (go_on d) = loop d

unfoldable pub while_bytes :
    {A : Type 0} → (Bytes → Sniffed (Pass A)) → ℕ → Bytes → Sniffed (Option A)
while_bytes body fuel [] = returned none
while_bytes body zero (b ∷ d) = out_of_fuel
while_bytes body (suc fuel) (b ∷ d) = body (b ∷ d) >>= continue (while_bytes body fuel)

-- The outcome is an error of the code, or a value with a property: no panic, and enough fuel.
abbrev pub Gives : {A : Type 0} → (A → Type 0) → Sniffed A → Type 0
Gives P (returned a) = P a
Gives P (failed e) = Unit
Gives P panicked = ⊥
Gives P out_of_fuel = ⊥

abbrev pub Any : {A : Type 0} → A → Type 0
Any a = Unit

pub >>=-Gives :
    {A B : Type 0} (P : A → Type 0) (Q : B → Type 0) (m : Sniffed A) (k : A → Sniffed B)
    → Gives P m
    → ((a : A) → P a → Gives Q (k a))
    → Gives Q (m >>= k)
>>=-Gives P Q (returned a) k h f = f a h
>>=-Gives P Q (failed e) k h f = tt
>>=-Gives P Q panicked k h f = absurd h
>>=-Gives P Q out_of_fuel k h f = absurd h

pub weaken-Gives : {A : Type 0} (P : A → Type 0) (m : Sniffed A) → Gives P m → Gives Any m
weaken-Gives P (returned a) h = tt
weaken-Gives P (failed e) h = tt
weaken-Gives P panicked h = absurd h
weaken-Gives P out_of_fuel h = absurd h

pub fail_if-Gives : (b : Bool) (e : SniffError) → Gives (λ x. b ≡ false) (fail_if b e)
fail_if-Gives true e = tt
fail_if-Gives false e = refl

pub at-Gives : (i : ℕ) (d : Bytes) → i < length d → Gives Any (at i d)
unfolding at
at-Gives i [] h = absurd (omega arith)
at-Gives zero (b ∷ d) h = tt
at-Gives (suc i) (b ∷ d) h = at-Gives i d (omega arith)

length-drop : (n : ℕ) (d : Bytes) → n ≤ length d → length (drop n d) + n ≡ length d
length-drop zero d h = omega arith
length-drop (suc n) [] h = omega arith
length-drop (suc n) (b ∷ d) h = omega (arith, length-drop n d)

pub slice_from-Gives :
    (n : ℕ) (d : Bytes)
    → n ≤ length d
    → Gives (λ (r : Bytes). length r + n ≡ length d) (slice_from n d)
unfolding slice_from
slice_from-Gives n d h =
    let fits : leb n (length d) ≡ true = ground arith in rw fits (length-drop n d h)

pub slice_to-Gives :
    (n : ℕ) (d : Bytes) → n ≤ length d → Gives (λ (r : Bytes). length r ≡ n) (slice_to n d)
unfolding slice_to
slice_to-Gives n d h =
    let fits : leb n (length d) ≡ true = ground arith in rw fits (length-take n d h)

pub word_at-Gives : (i : ℕ) (d : Bytes) → i + 1 < length d → Gives Any (word_at i d)
word_at-Gives i d h =
    >>=-Gives Any Any (at i d) _ (at-Gives i d (omega arith))
      (λ high _. >>=-Gives Any Any (at (i + 1) d) _ (at-Gives (i + 1) d h) (λ low _. tt))

-- A pass returns, or leaves fewer bytes.
abbrev pub Shorter : {A : Type 0} → Bytes → Pass A → Type 0
Shorter d (return_with a) = Unit
Shorter d (go_on r) = length r < length d

continue-Gives :
    {A : Type 0} (loop : Bytes → Sniffed (Option A)) (d : Bytes) (p : Pass A)
    → Shorter d p
    → ((r : Bytes) → length r < length d → Gives Any (loop r))
    → Gives Any (continue loop p)
continue-Gives loop d (return_with a) s h = tt
continue-Gives loop d (go_on r) s h = h r s

-- A loop whose body makes the slice shorter ends, with its length as fuel.
pub while_bytes-Gives :
    {A : Type 0} (body : Bytes → Sniffed (Pass A))
    → ((d : Bytes) → 0 < length d → Gives (Shorter d) (body d))
    → (fuel : ℕ) (d : Bytes) → length d ≤ fuel
    → Gives Any (while_bytes body fuel d)
unfolding while_bytes
while_bytes-Gives body h fuel [] le = tt
while_bytes-Gives body h zero (b ∷ d) le = absurd (omega arith)
while_bytes-Gives body h (suc fuel) (b ∷ d) le =
    >>=-Gives (Shorter (b ∷ d)) Any (body (b ∷ d)) _ (h (b ∷ d) (omega arith)) (λ p s.
      continue-Gives (while_bytes body fuel) (b ∷ d) p s
        (λ r lt. while_bytes-Gives body h fuel r (omega (arith, lt))))

-- An outcome that neither panics nor runs out of fuel is a value or an error.
pub Gives-ends :
    {A : Type 0} (o : Sniffed A)
    → Gives Any o
    → ((a : A) × (o ≡ returned a)) ⊎ ((e : SniffError) × (o ≡ failed e))
Gives-ends (returned a) h = inl (a, refl)
Gives-ends (failed e) h = inr (e, refl)
Gives-ends panicked h = absurd h
Gives-ends out_of_fuel h = absurd h
