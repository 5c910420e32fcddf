-- ===== src/Statistic.antt =====
-- clash/tunnel/statistic/manager.go: the counters of the traffic. The table of the connections is
-- that of common/xsync, a copy of another library.
pub mod Traffic
use clash_for_android.Prelude.{ℕ, ◌+◌, List, [], ◌∷◌, ◌++◌, Option, none, some}

pub data Direction : Type 0 where
  upload download : Direction

-- The counters of one direction: what came since the last tick, what came before it, and all.
pub record Counters : Type 0 where
  pub temp : ℕ
  pub blip : ℕ
  pub total : ℕ

-- `Manager`
pub record Manager : Type 0 where
  pub uploaded : Counters
  pub downloaded : Counters

abbrev pub of_direction : Direction → Manager → Counters
of_direction upload m = m.uploaded
of_direction download m = m.downloaded

abbrev pub change : Direction → (Counters → Counters) → Manager → Manager
change upload f m = record m { uploaded = f m.uploaded }
change download f m = record m { downloaded = f m.downloaded }

-- What one goroutine does at once: an addition to a counter, or an exchange with the next store.
pub data Step : Type 0 where
  add_temp add_total : Direction → ℕ → Step
  publish : Direction → Step

abbrev pub publish_in : Counters → Counters
publish_in c = record c { temp = 0; blip = c.temp }

unfoldable pub step : Step → Manager → Manager
step (add_temp d size) m = change d (λ c. record c { temp = c.temp + size }) m
step (add_total d size) m = change d (λ c. record c { total = c.total + size }) m
step (publish d) m = change d publish_in m

abbrev pub run_steps : List Step → Manager → Manager
run_steps [] m = m
run_steps (s ∷ ss) m = run_steps ss (step s m)

-- `PushUploaded` and `PushDownloaded`, and one turn of `handle`.
abbrev pub push_traffic : Direction → ℕ → List Step
push_traffic d size = add_temp d size ∷ add_total d size ∷ []

abbrev pub tick : List Step
tick = publish upload ∷ publish download ∷ []

-- What a goroutine does: one call of `PushUploaded` or `PushDownloaded`, or one turn of the ticker.
pub data Work : Type 0 where
  push : Direction → ℕ → Work
  turn : Work

abbrev pub steps_of : Work → List Step
steps_of (push d size) = push_traffic d size
steps_of turn = tick

-- The third list has the steps of the first two, each in its order.
pub data Shuffle : List Step → List Step → List Step → Type 0 where
  done : Shuffle [] [] []
  first : (x : Step) {xs ys zs : List Step} → Shuffle xs ys zs → Shuffle (x ∷ xs) ys (x ∷ zs)
  second : (y : Step) {xs ys zs : List Step} → Shuffle xs ys zs → Shuffle xs (y ∷ ys) (y ∷ zs)

-- The steps of all the works, in an order in which they may come.
pub data Interleaved : List Work → List Step → Type 0 where
  done : Interleaved [] []
  add :
      (w : Work) {ws : List Work} {rest ss : List Step}
      → Interleaved ws rest
      → Shuffle (steps_of w) rest ss
      → Interleaved (w ∷ ws) ss

-- `Now`
abbrev pub now_traffic : Manager → ℕ × ℕ
now_traffic m = (m.uploaded.blip, m.downloaded.blip)

-- `ResetStatistic`
abbrev pub zero_counters : Counters
zero_counters = record { temp = 0; blip = 0; total = 0 }

unfoldable pub reset_statistic : Manager → Manager
reset_statistic m = record { uploaded = zero_counters; downloaded = zero_counters }
