-- ===== src/Group/LoadBalance/RoundRobin.antt =====
-- How round robin takes turns.
use clash_for_android.Prelude.{
  ℕ, zero, suc, ◌+◌, ◌%◌, ◌≤◌, ◌<◌, ◌≡◌, refl, sym, ◌∙◌, ap, Bool, true, false, List, [], ◌∷◌,
  String, Option, none, some, if◌then◌else◌, length, get_elem?, arith, inl, inr, ◌⊎◌, ltb, subst,
  Bool-cases,
}
use mathlib.Core.Option.{some-injective}
use native.Mathlib.Nat.{mod-eq_of_lt, add-mod_right, mod-lt}
use clash_for_android.Health.Proxy.{Heap, Member, is_alive}
use clash_for_android.Group.Selector.{first}
use clash_for_android.Group.LoadBalance.{rotate, round_robin}

module _ (heap : Heap) (url : String) (ps : List Member) (idx : ℕ) where
  -- The position `k` places after `idx`, round the list.
  abbrev pub place : ℕ → ℕ
  place k = (idx + k) % length ps

  -- Whoever stands there is not alive.
  abbrev pub Skipped : ℕ → Type 0
  Skipped k = (p : Member) → get_elem? ps (place k) ≡ some p → is_alive heap url p ≡ false

  -- From the `i`-th turn on, the `turn`-th is the first at which the member is alive.
  pub record Found (i : ℕ) (p : Member) : Type 0 where
    pub turn : ℕ
    pub from : i ≤ turn
    pub below : turn < length ps
    pub at : get_elem? ps (place turn) ≡ some p
    pub alive : is_alive heap url p ≡ true
    pub skipped : (k : ℕ) → i ≤ k → k < turn → Skipped k

  abbrev pub NoneFound : ℕ → Type 0
  NoneFound i = (k : ℕ) → i ≤ k → k < length ps → Skipped k

get_elem-some :
    {A : Type 0} (xs : List A) (i : ℕ) → i < length xs → (x : A) × (get_elem? xs i ≡ some x)
get_elem-some [] i h = absurd (omega arith)
get_elem-some (x ∷ xs) zero h = (x, refl)
get_elem-some (x ∷ xs) (suc i) h = get_elem-some xs i (omega arith)

-- The first turn is skipped if its member is dead, and the others by what is known of them.
Skipped-cons :
    (heap : Heap) (url : String) (ps : List Member) (idx i k : ℕ) (p : Member)
    → get_elem? ps (place heap url ps idx i) ≡ some p
    → is_alive heap url p ≡ false
    → i ≤ k
    → (i + 1 ≤ k → Skipped heap url ps idx k)
    → Skipped heap url ps idx k
Skipped-cons heap url ps idx i k p at dead le later = elim (Bool-cases (ltb i k)) [
  | inl lt ↦ later (ground arith)
  | inr ge ↦ λ q e.
      let same : i ≡ k = ground arith in
      let here : some p ≡ some q =
        sym at ∙ ap (λ (j : ℕ). get_elem? ps (place heap url ps idx j)) same ∙ e in
      subst (λ (m : Member). is_alive heap url m ≡ false) (some-injective _ _ here) dead
]

-- How the loop ends from the `i`-th turn on.
abbrev pub Ends : Heap → String → List Member → ℕ → ℕ → Option Member × ℕ → Type 0
Ends heap url ps idx i r =
    ((p : Member) × (f : Found heap url ps idx i p) × (r ≡ (some p, f.turn + 1)))
    ⊎ (NoneFound heap url ps idx i × (r ≡ (none, length ps)))

Ends-skip :
    (heap : Heap) (url : String) (ps : List Member) (idx i : ℕ) (p : Member) (r : Option Member × ℕ)
    → get_elem? ps (place heap url ps idx i) ≡ some p
    → is_alive heap url p ≡ false
    → Ends heap url ps idx (i + 1) r
    → Ends heap url ps idx i r
Ends-skip heap url ps idx i p r at dead (inl (q, f, e)) = inl (
  q,
  record {
    turn = f.turn;
    from = omega (arith, f.from);
    below = f.below;
    at = f.at;
    alive = f.alive;
    skipped = λ k a b. Skipped-cons heap url ps idx i k p at dead a (λ c. f.skipped k c b);
  },
  e,
)
Ends-skip heap url ps idx i p r at dead (inr (h, e)) =
    inr (λ k a b. Skipped-cons heap url ps idx i k p at dead a (λ c. h k c b), e)

Ends-turn :
    (heap : Heap) (url : String) (ps : List Member) (idx i : ℕ) (p : Member) (r : Option Member × ℕ)
    (b : Bool)
    → i < length ps
    → get_elem? ps (place heap url ps idx i) ≡ some p
    → is_alive heap url p ≡ b
    → Ends heap url ps idx (i + 1) r
    → Ends heap url ps idx i (if b then (some p, i + 1) else r)
Ends-turn heap url ps idx i p r true lt at alive h = inl (
  p,
  record {
    turn = i;
    from = omega arith;
    below = lt;
    at = at;
    alive = alive;
    skipped = λ k a b. absurd (omega arith);
  },
  refl,
)
Ends-turn heap url ps idx i p r false lt at dead h = Ends-skip heap url ps idx i p r at dead h

rotate-Ends :
    (heap : Heap) (url : String) (ps : List Member) (idx n i : ℕ)
    → i + n ≡ length ps
    → Ends heap url ps idx i (rotate heap url ps idx n i)
unfolding rotate
rotate-Ends heap url ps idx zero i e =
    inr (λ k a b. absurd (omega arith), ap (λ (j : ℕ). (none, j)) (omega arith))
rotate-Ends heap url ps idx (suc n) i e =
    let (p, at) = get_elem-some ps ((idx + i) % length ps) (mod-lt (idx + i) (omega arith)) in
    let rest = rotate heap url ps idx n (i + 1) in
    let h =
      Ends-turn heap url ps idx i p rest (is_alive heap url p) (omega arith) at refl
        (rotate-Ends heap url ps idx n (i + 1) (omega arith)) in
    rw at h

stays : (touching : Bool) (i n : ℕ) → i < n → (if touching then (i + n) % n else i) ≡ i
stays true i n lt = add-mod_right i n ∙ mod-eq_of_lt lt
stays false i n lt = refl

-- When the place where it stands is one of the list's (`idx < length ps`; a list that has become
-- shorter since is not covered), round robin gives the first member that is alive, counting round
-- from there, and a call that touches moves on to the place behind it. If none is alive it gives
-- the first member of the list and stays where it is.
pub round_robin_lem :
    (heap : Heap) (url : String) (ps : List Member) (touching : Bool) (idx : ℕ)
    → idx < length ps
    → ((p : Member) × (f : Found heap url ps idx 0 p) × (round_robin heap url ps touching idx
          ≡ (some p, if touching then (idx + (f.turn + 1)) % length ps else idx)))
      ⊎ (NoneFound heap url ps idx 0 × (round_robin heap url ps touching idx ≡ (first ps, idx)))
unfolding round_robin
round_robin_lem heap url ps touching idx lt =
    elim (rotate-Ends heap url ps idx (length ps) 0 (omega arith)) [
      | inl (p, f, e) ↦ inl (p, f, rw e)
      | inr (h, e) ↦
          inr (h, rw e (ap (λ (i : ℕ). (first ps, i)) (stays touching idx (length ps) lt)))
    ]
