-- ===== src/Group/UrlTest/Fast.antt =====
-- Which member a url-test group uses (`fast` of outboundgroup/urltest.go).
use clash_for_android.Prelude.{
  ℕ, ◌+◌, ◌%◌, ◌≤◌, ◌≡◌, refl, sym, subst, String, Bool, true, false, ◌&&◌, Option, none, some,
  List, [], ◌∷◌, ltb, arith, if◌then◌else◌, str_eq, str_eq_iff, In, All, inl, inr, ◌⊎◌, Bool-cases,
}
use clash_for_android.Health.Proxy.{Member, Heap, is_alive, delay_of}
use clash_for_android.Group.UrlTest.{
  UrlTest, chosen_alive, choice, fastest, fast_met, must_switch, settle, find_fast,
}

-- Nothing that is alive among the members is faster.
abbrev pub NoneFaster : Heap → String → Member → List Member → Type 0
NoneFaster heap url fast =
    All (λ p. is_alive heap url p ≡ true → delay_of heap url fast ≤ delay_of heap url p)

module _ (heap : Heap) (url : String) where
  -- The member that a round of the second loop goes on with.
  abbrev better : Member → Member → Bool
  better p fast = is_alive heap url p && ltb (delay_of heap url p) (delay_of heap url fast)

  abbrev faster : Member → Member → Member
  faster p fast = if better p fast then p else fast

  carried :
      (b : Bool) (p fast : Member)
      → (if b then delay_of heap url p else delay_of heap url fast)
        ≡ delay_of heap url (if b then p else fast)
  carried true p fast = refl
  carried false p fast = refl

  -- The loop from a member and its own delay.
  abbrev pub fastest_from : Member → List Member → Member
  fastest_from fast ps = fastest heap url fast (delay_of heap url fast) ps

  round_lem :
      (p fast : Member) (ps : List Member)
      → fastest_from fast (p ∷ ps) ≡ fastest_from (faster p fast) ps
  unfolding fastest
  round_lem p fast ps = rw (carried (better p fast) p fast)

  faster-cases : (p fast : Member) → (faster p fast ≡ fast) ⊎ (faster p fast ≡ p)
  faster-cases p fast = ground arith

  widen :
      (p fast : Member) (ps : List Member) (q : Member)
      → In q (faster p fast ∷ ps)
      → In q (fast ∷ p ∷ ps)
  widen p fast ps q h = ground (arith, faster-cases p fast)

  fastest-In : (ps : List Member) (fast : Member) → In (fastest_from fast ps) (fast ∷ ps)
  unfolding fastest
  fastest-In [] fast = inl refl
  fastest-In (p ∷ ps) fast =
      subst (λ q. In q (fast ∷ p ∷ ps)) (sym (round_lem p fast ps))
        (widen p fast ps (fastest_from (faster p fast) ps) (fastest-In ps (faster p fast)))

  fastest-le :
      (ps : List Member) (fast : Member)
      → delay_of heap url (fastest_from fast ps) ≤ delay_of heap url fast
  unfolding fastest
  fastest-le [] fast = omega arith
  fastest-le (p ∷ ps) fast = rw round_lem (ground (arith, fastest-le ps (faster p fast)))

  fastest-NoneFaster :
      (ps : List Member) (fast : Member) → NoneFaster heap url (fastest_from fast ps) ps
  fastest-NoneFaster [] fast = tt
  fastest-NoneFaster (p ∷ ps) fast =
      subst (λ q. NoneFaster heap url q (p ∷ ps)) (sym (round_lem p fast ps))
        (
          λ alive. ground (arith, fastest-le ps (faster p fast)),
          fastest-NoneFaster ps (faster p fast),
        )

-- What is kept is alive, was met, and is within the tolerance.
abbrev pub Kept : Heap → String → ℕ → Option Member → List Member → Member → Member → Type 0
Kept heap url tolerance current ps fast q =
    (current ≡ some q)
    × (is_alive heap url q ≡ true)
    × (fast_met (some q) ps ≡ true)
    × (delay_of heap url q ≤ (delay_of heap url fast + tolerance) % 65536)

settle_lem :
    (heap : Heap) (url : String) (tolerance : ℕ) (ps : List Member) (fast : Member)
    (current : Option Member)
    → let r =
        settle (must_switch heap url tolerance current (fast_met current ps) fast) fast current in
      (r ≡ some fast) ⊎ ((q : Member) × (r ≡ some q) × Kept heap url tolerance current ps fast q)
unfolding must_switch
settle_lem heap url tolerance ps fast none = inl refl
settle_lem heap url tolerance ps fast (some n) =
    elim (Bool-cases (must_switch heap url tolerance (some n) (fast_met (some n) ps) fast)) [
      | inl switch ↦ inl (rw switch)
      | inr keep ↦ inr (n, rw keep, ground arith)
    ]

-- With no member chosen, or none of that name alive, the group goes on with the member that it used
-- last, or it uses a member of the list that none which is alive beats. If it goes on, that member
-- is alive, its name is among the members after the first, and it is slower than the fastest by no
-- more than the tolerance (the sum is a uint16).
pub find_fast-auto :
    (heap : Heap) (u : UrlTest) (p : Member) (ps : List Member)
    → choice heap u (p ∷ ps) ≡ none
    → ((q : Member) × (find_fast heap u (p ∷ ps) ≡ some q)
        × In q (p ∷ ps)
        × NoneFaster heap u.test_url q (p ∷ ps))
      ⊎ ((q : Member) × (find_fast heap u (p ∷ ps) ≡ some q)
          × Kept heap u.test_url u.tolerance u.fast_node ps (fastest_from heap u.test_url p ps) q)
unfolding find_fast
find_fast-auto heap u p ps e =
    let fast = fastest_from heap u.test_url p ps in
    elim (settle_lem heap u.test_url u.tolerance ps fast u.fast_node) [
      | inl r ↦ inl (
        fast,
        rw e r,
        fastest-In heap u.test_url ps p,
        (λ _. fastest-le heap u.test_url ps p, fastest-NoneFaster heap u.test_url ps p),
      )
      | inr (q, r, kept) ↦ inr (q, rw e r, kept)
    ]

chosen_alive-lem :
    (heap : Heap) (url name : String) (ps : List Member) (q : Member)
    → In q ps
    → is_alive heap url q ≡ true
    → q.name ≡ name
    → (r : Member) × (chosen_alive heap url name ps ≡ some r)
      × (r.name ≡ name)
      × (is_alive heap url r ≡ true)
unfolding chosen_alive
chosen_alive-lem heap url name [] q m alive e = absurd m
chosen_alive-lem heap url name (p ∷ ps) q m alive e =
    elim (Bool-cases (is_alive heap url p && str_eq p.name name)) [
      | inl here ↦ (p, rw here, (str_eq_iff p.name name).0 (ground arith), ground arith)
      | inr there ↦
          let (r, found, same, up) = chosen_alive-lem heap url name ps q (later m there) alive e in
          (r, rw (there, found), same, up)
    ]
  where
    later : In q (p ∷ ps) → (is_alive heap url p && str_eq p.name name) ≡ false → In q ps
    later (inl here) f = absurd (ground (arith, str_eq_iff p.name name))
    later (inr m') f = m'

-- While a member of the chosen name is alive, the group uses a member of that name that is alive.
pub find_fast-chosen :
    (heap : Heap) (u : UrlTest) (ps : List Member) (q : Member)
    → str_eq u.selected "" ≡ false
    → In q ps
    → is_alive heap u.test_url q ≡ true
    → q.name ≡ u.selected
    → (r : Member) × (find_fast heap u ps ≡ some r)
      × (r.name ≡ u.selected)
      × (is_alive heap u.test_url r ≡ true)
unfolding find_fast
find_fast-chosen heap u ps q chosen m alive e =
    let (r, found, same, up) = chosen_alive-lem heap u.test_url u.selected ps q m alive e in
    (r, rw (chosen, found), same, up)
