-- ===== src/Statistic/Traffic.antt =====
-- No traffic is lost or counted twice, in whatever order the goroutines run
-- (clash/tunnel/statistic/manager.go).
use clash_for_android.Prelude.{
  ℕ, ◌+◌, ◌≡◌, Bool, true, false, List, [], ◌∷◌, ◌++◌, refl, if◌then◌else◌, arith,
}
use clash_for_android.Statistic.{
  Direction, upload, download, Manager, of_direction, Step, add_temp, add_total, publish, step,
  run_steps, tick, Work, push, turn, steps_of, Shuffle, Interleaved,
}

abbrev same_direction : Direction → Direction → Bool
same_direction upload upload = true
same_direction download download = true
same_direction _ _ = false

-- What a step adds to the counter of the tick, and to the total, of a direction; and the speed that
-- it publishes, which it leaves in the state.
abbrev pub arrives : Direction → Step → ℕ
arrives d (add_temp e size) = if same_direction d e then size else 0
arrives d (add_total e size) = 0
arrives d (publish e) = 0

abbrev pub records : Direction → Step → ℕ
records d (add_temp e size) = 0
records d (add_total e size) = if same_direction d e then size else 0
records d (publish e) = 0

abbrev pub shows : Direction → Step → Manager → ℕ
shows d (add_temp e size) after = 0
shows d (add_total e size) after = 0
shows d (publish e) after = if same_direction d e then (of_direction d after).blip else 0

abbrev pub sum_of : (Step → ℕ) → List Step → ℕ
sum_of f [] = 0
sum_of f (s ∷ ss) = f s + sum_of f ss

-- The sum of the speeds of a direction that are published on the way.
abbrev pub published : Direction → List Step → Manager → ℕ
published d [] m = 0
published d (s ∷ ss) m = shows d s (step s m) + published d ss (step s m)

temp-step :
    (d : Direction) (s : Step) (m : Manager)
    → shows d s (step s m) + (of_direction d (step s m)).temp
      ≡ (of_direction d m).temp + arrives d s
unfolding step
temp-step upload (add_temp upload n) m = omega arith
temp-step upload (add_temp download n) m = omega arith
temp-step download (add_temp upload n) m = omega arith
temp-step download (add_temp download n) m = omega arith
temp-step upload (add_total upload n) m = omega arith
temp-step upload (add_total download n) m = omega arith
temp-step download (add_total upload n) m = omega arith
temp-step download (add_total download n) m = omega arith
temp-step upload (publish upload) m = omega arith
temp-step upload (publish download) m = omega arith
temp-step download (publish upload) m = omega arith
temp-step download (publish download) m = omega arith

total-step :
    (d : Direction) (s : Step) (m : Manager)
    → (of_direction d (step s m)).total ≡ (of_direction d m).total + records d s
unfolding step
total-step upload (add_temp upload n) m = omega arith
total-step upload (add_temp download n) m = omega arith
total-step download (add_temp upload n) m = omega arith
total-step download (add_temp download n) m = omega arith
total-step upload (add_total upload n) m = omega arith
total-step upload (add_total download n) m = omega arith
total-step download (add_total upload n) m = omega arith
total-step download (add_total download n) m = omega arith
total-step upload (publish upload) m = omega arith
total-step upload (publish download) m = omega arith
total-step download (publish upload) m = omega arith
total-step download (publish download) m = omega arith

temp-steps :
    (d : Direction) (ss : List Step) (m : Manager)
    → published d ss m + (of_direction d (run_steps ss m)).temp
      ≡ (of_direction d m).temp + sum_of (arrives d) ss
temp-steps d [] m = omega arith
temp-steps d (s ∷ ss) m = omega (arith, temp-step d s m, temp-steps d ss (step s m))

total-steps :
    (d : Direction) (ss : List Step) (m : Manager)
    → (of_direction d (run_steps ss m)).total ≡ (of_direction d m).total + sum_of (records d) ss
total-steps d [] m = omega arith
total-steps d (s ∷ ss) m = omega (arith, total-step d s m, total-steps d ss (step s m))

module _ (f : Step → ℕ) where
  sum_of-append : (xs ys : List Step) → sum_of f (xs ++ ys) ≡ sum_of f xs + sum_of f ys
  sum_of-append [] ys = omega arith
  sum_of-append (x ∷ xs) ys = omega (arith, sum_of-append xs ys)

  sum_of-Shuffle :
      {xs ys zs : List Step} → Shuffle xs ys zs → sum_of f zs ≡ sum_of f xs + sum_of f ys
  sum_of-Shuffle Shuffle.done = omega arith
  sum_of-Shuffle (Shuffle.first x h) = omega (arith, sum_of-Shuffle h)
  sum_of-Shuffle (Shuffle.second y h) = omega (arith, sum_of-Shuffle h)

-- The bytes of a direction that the pushes among the works bring.
abbrev pushed_by : Direction → Work → ℕ
pushed_by d (push e size) = if same_direction d e then size else 0
pushed_by d turn = 0

abbrev pub pushed : Direction → List Work → ℕ
pushed d [] = 0
pushed d (w ∷ ws) = pushed_by d w + pushed d ws

arrives-steps_of : (d : Direction) (w : Work) → sum_of (arrives d) (steps_of w) ≡ pushed_by d w
arrives-steps_of upload (push upload n) = omega arith
arrives-steps_of upload (push download n) = omega arith
arrives-steps_of download (push upload n) = omega arith
arrives-steps_of download (push download n) = omega arith
arrives-steps_of d turn = omega arith

records-steps_of : (d : Direction) (w : Work) → sum_of (records d) (steps_of w) ≡ pushed_by d w
records-steps_of upload (push upload n) = omega arith
records-steps_of upload (push download n) = omega arith
records-steps_of download (push upload n) = omega arith
records-steps_of download (push download n) = omega arith
records-steps_of d turn = omega arith

sum_of-Interleaved :
    (d : Direction) (f : Step → ℕ)
    → ((w : Work) → sum_of f (steps_of w) ≡ pushed_by d w)
    → {ws : List Work} {ss : List Step} → Interleaved ws ss
    → sum_of f ss ≡ pushed d ws
sum_of-Interleaved d f each Interleaved.done = refl
sum_of-Interleaved d f each (Interleaved.add w h shuffle) =
    omega (arith, each w, sum_of-Shuffle f shuffle, sum_of-Interleaved d f each h)

run_steps-append :
    (ss ts : List Step) (m : Manager) → run_steps (ss ++ ts) m ≡ run_steps ts (run_steps ss m)
run_steps-append [] ts m = refl
run_steps-append (s ∷ ss) ts m = run_steps-append ss ts (step s m)

temp-tick : (d : Direction) (m : Manager) → (of_direction d (run_steps tick m)).temp ≡ 0
unfolding step
temp-tick upload m = refl
temp-tick download m = refl

temp-after_tick :
    (d : Direction) (ss : List Step) (m : Manager)
    → (of_direction d (run_steps (ss ++ tick) m)).temp ≡ 0
temp-after_tick d ss m = rw (run_steps-append ss tick m) (temp-tick d (run_steps ss m))

-- Goroutines push bytes in both directions and the ticker takes its turns, their steps coming in any
-- order, and a turn follows when all pushes are done. Then, for either direction, the speeds that
-- were published sum up to what waited at the start and the bytes pushed, the total has grown by
-- the bytes pushed, and nothing waits any more. (The counters do not overflow here.)
pub run_steps-conserves :
    (d : Direction) (works : List Work) (ss : List Step) (m : Manager)
    → Interleaved works ss
    → (published d (ss ++ tick) m ≡ (of_direction d m).temp + pushed d works)
      × ((of_direction d (run_steps (ss ++ tick) m)).total
          ≡ (of_direction d m).total + pushed d works)
      × ((of_direction d (run_steps (ss ++ tick) m)).temp ≡ 0)
run_steps-conserves d works ss m h = (
  omega (
    arith,
    temp-steps d (ss ++ tick) m,
    sum_of-append (arrives d) ss tick,
    sum_of-Interleaved d (arrives d) (arrives-steps_of d) h,
    temp-after_tick d ss m,
  ),
  omega (
    arith,
    total-steps d (ss ++ tick) m,
    sum_of-append (records d) ss tick,
    sum_of-Interleaved d (records d) (records-steps_of d) h,
  ),
  temp-after_tick d ss m,
)
