-- ===== src/Group/Base/Failures.antt =====
-- Failed dials of outboundgroup/groupbase.go: `onDialFailed`, `onDialSuccess` and `healthCheck`.
-- `onDialFailed` runs its body in a goroutine of its own, and but for a refused connection under a
-- lock: here that body is one step, which says whether it asks for a health check, with what the
-- check, which `fn` waits for, leaves in the group. Where a check is running already `fn` does
-- nothing. Times are milliseconds of one clock.
use clash_for_android.Prelude.{
  ℕ, suc, ◌+◌, ◌-◌, ◌≤◌, ◌<◌, ◌≡◌, max, zero, Bool-cases, inl, inr, refl, ap, Bool, true, false,
  List, [], ◌∷◌, arith, ltb, leb, ◌==◌, if◌then◌else◌, All, Option, none, some,
}
use clash_for_android.Health.Kind.{AdapterType, direct, reject, reject_drop, compatible, pass}
use clash_for_android.Group.Base.{Group}

-- Failures of these do not count.
abbrev pub uncounted : AdapterType → Bool
uncounted direct = true
uncounted compatible = true
uncounted reject = true
uncounted pass = true
uncounted reject_drop = true
uncounted _ = false

-- What `err` is: C.ErrNotSupport, one whose text has "connection refused", or another.
pub data DialError : Type 0 where
  not_support refused other : DialError

-- The begin of `healthCheck`; `none`: a check is running already.
abbrev pub health_check_begin : Group → Option Group
health_check_begin g = if g.failed_testing then none else some (record g { failed_testing = true })

abbrev pub health_check_end : Group → Group
health_check_end g = record g { failed_testing = false; failed_times = 0 }

abbrev pub check_over : Group → Option Group → Group
check_over g none = g
check_over g (some during) = health_check_end during

-- `healthCheck`, of which the caller waits for the end.
abbrev pub health_check : Group → Group
health_check g = check_over g (health_check_begin g)

-- The call of `fn` in a test.
abbrev pub checked_if : Bool → Group → Group × Bool
checked_if ask g = (if ask then health_check g else g, ask)

-- The body under the lock: the group, and whether `fn` is called.
unfoldable pub count_failure : ℕ → Group → Group × Bool
count_failure now g =
    let n = g.failed_times + 1 in
    if n == 1
    then (record g { failed_times = n; failed_time = now }, false)
    else if ltb g.test_timeout (now - g.failed_time)
    then (record g { failed_times = 0 }, false)
    else checked_if (leb g.max_failed_times n) (record g { failed_times = n })

abbrev dial_error : DialError → ℕ → Group → Group × Bool
dial_error not_support now g = (g, false)
dial_error refused now g = checked_if true g
dial_error other now g = count_failure now g

unfoldable pub on_dial_failed : AdapterType → DialError → ℕ → Group → Group × Bool
unfolding count_failure
on_dial_failed kind e now g = if uncounted kind then (g, false) else dial_error e now g

unfoldable pub on_dial_success : Group → Group
on_dial_success g = if g.failed_testing then g else record g { failed_times = 0 }

-- Failures one after the other, each with its time: which of them asked for a health check.
unfoldable pub burst : AdapterType → List ℕ → Group → List Bool
burst kind [] g = []
burst kind (t ∷ ts) g = let (g', asked) = on_dial_failed kind other t g in asked ∷ burst kind ts g'

-- The failures at which a count that starts after `c` of them reaches `period`, and starts again.
abbrev pub expected : ℕ → ℕ → List ℕ → List Bool
expected period c [] = []
expected period c (t ∷ ts) =
    let last = leb period (c + 1) in last ∷ expected period (if last then 0 else c + 1) ts

abbrev pub Within : ℕ → ℕ → List ℕ → Type 0
Within start timeout = All (λ t. (start ≤ t) × (t ≤ start + timeout))

-- The failures that make a health check: two at least.
abbrev pub period_of : Group → ℕ
period_of g = max 2 g.max_failed_times

module _ (kind : AdapterType) (start : ℕ) (counted : uncounted kind ≡ false) where
  -- The first failure of a count.
  first_failure :
      (t : ℕ) (g : Group)
      → g.failed_times ≡ 0
      → on_dial_failed kind other t g ≡ (record g { failed_times = 1; failed_time = t }, false)
  unfolding on_dial_failed
  first_failure t g e = rw (counted, e)

  -- A later one, within the window.
  next_failure :
      (c t : ℕ) (g : Group)
      → g.failed_times ≡ suc c
      → t ≤ g.failed_time + g.test_timeout
      → on_dial_failed kind other t g
        ≡ checked_if (leb g.max_failed_times (suc c + 1)) (record g { failed_times = suc c + 1 })
  unfolding on_dial_failed
  next_failure c t g e w =
      let more : (suc c + 1 == 1) ≡ false = ground arith in
      let early : ltb g.test_timeout (t - g.failed_time) ≡ false = ground arith in
      rw (counted, e, more, early) refl

  burst-expected :
      (c : ℕ) (ts : List ℕ) (g : Group)
      → g.failed_times ≡ c
      → c < period_of g
      → g.failed_testing ≡ false
      → (0 < c → start ≤ g.failed_time)
      → Within start g.test_timeout ts
      → burst kind ts g ≡ expected (period_of g) c ts
  unfolding burst
  burst-expected c [] g e low idle late w = refl
  burst-expected zero (t ∷ ts) g e low idle late ((after, before), ws) =
      let g1 = record g { failed_times = 1; failed_time = t } in
      let more : leb (period_of g) (0 + 1) ≡ false = ground arith in
      rw (first_failure t g e, more)
        (ap (◌∷◌ false) (burst-expected 1 ts g1 refl (omega arith) idle (λ h. after) ws))
  burst-expected (suc c) (t ∷ ts) g e low idle late ((after, before), ws) =
      let since = late (omega arith) in
      let next = next_failure c t g e (omega arith) in
      elim (Bool-cases (leb g.max_failed_times (suc c + 1))) [
        | inl full ↦
            let last : leb (period_of g) (suc c + 1) ≡ true = ground arith in
            let g1 = record g { failed_testing = false; failed_times = 0 } in
            rw (next, full, last, idle)
              (ap (◌∷◌ true)
                (burst-expected 0 ts g1 refl (omega arith) refl (λ h. absurd (omega arith)) ws))
        | inr open_count ↦
            let more : leb (period_of g) (suc c + 1) ≡ false = ground arith in
            let g1 = record g { failed_times = suc c + 1 } in
            rw (next, open_count, more)
              (ap (◌∷◌ false)
                (burst-expected (suc c + 1) ts g1 refl (ground arith) idle (λ h. since) ws))
      ]

-- From a group with no failures counted and no health check running, of failures one after the
-- other, all within the test timeout of the start, every n-th asks for a health check and no other
-- does, where n is the largest number allowed, or two if it is less: each check starts the count
-- again.
pub burst_lem :
    (kind : AdapterType) (start : ℕ) (ts : List ℕ) (g : Group)
    → uncounted kind ≡ false
    → g.failed_times ≡ 0
    → g.failed_testing ≡ false
    → Within start g.test_timeout ts
    → burst kind ts g ≡ expected (period_of g) 0 ts
burst_lem kind start ts g counted e idle w =
    burst-expected kind start counted 0 ts g e (omega arith) idle (λ h. absurd (omega arith)) w
