-- ===== src/Health/Queue.antt =====
-- common/queue/queue.go. A queue is the list of its items, the oldest first; a method is
-- one step here, as under its lock, though `Pop` and `Last` look at the length before they take the
-- lock (a race of two that take the last item is not modelled). `Pop` and `Last` of an empty queue give Go's zero value, which is
-- the argument `zero_value`. `Len` is `length`.
use clash_for_android.Prelude.{
  ℕ, ◌-◌, ◌≤◌, ◌≡◌, refl, List, [], ◌∷◌, ◌++◌, arith, ltb, if◌then◌else◌, length, length-append,
}

module _ {A : Type 0} where
  unfoldable pub put : List A → List A → List A
  put q items = q ++ items

  unfoldable pub pop : A → List A → A × List A
  pop zero_value [] = (zero_value, [])
  pop zero_value (x ∷ q) = (x, q)

  unfoldable pub last : A → List A → A
  last zero_value [] = zero_value
  last zero_value (x ∷ q) = last x q

  unfoldable pub copy : List A → List A
  copy q = [] ++ q

  -- What `URLTest` does with a history: put, and pop when it has grown past the limit.
  unfoldable pub put_bounded : ℕ → A → A → List A → List A
  put_bounded limit zero_value x q =
      let q' = put q (x ∷ []) in if ltb limit (length q') then (pop zero_value q').1 else q'

  pub last-put : (d x : A) (q : List A) → last d (put q (x ∷ [])) ≡ x
  unfolding last put
  last-put d x [] = refl
  last-put d x (y ∷ q) = last-put y x q

  pub length-pop : (d : A) (q : List A) → length (pop d q).1 ≡ length q - 1
  unfolding pop
  length-pop d [] = omega arith
  length-pop d (x ∷ q) = omega arith

  -- A queue that never passed its limit does not pass it now.
  pub length-put_bounded-le :
      (limit : ℕ) (d x : A) (q : List A)
      → length q ≤ limit
      → length (put_bounded limit d x q) ≤ limit
  unfolding put_bounded put
  length-put_bounded-le limit d x q h =
      ground (arith, length-append q (x ∷ []), length-pop d (q ++ x ∷ []))

  last-pop : (d x y : A) (q : List A) → last d (pop d (y ∷ put q (x ∷ []))).1 ≡ x
  unfolding pop
  last-pop d x y q = last-put d x q

  -- The newest item stays, unless the limit is zero.
  pub last-put_bounded :
      (limit : ℕ) (d x : A) (q : List A) → 1 ≤ limit → last d (put_bounded limit d x q) ≡ x
  unfolding put_bounded pop last put
  last-put_bounded limit d x [] h = ground arith
  last-put_bounded limit d x (y ∷ q) h = ground (arith, last-put y x q, last-put d x q)
