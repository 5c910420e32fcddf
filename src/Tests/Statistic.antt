-- ===== src/Tests/Statistic.antt =====
-- Tests of the counters of the traffic.
use clash_for_android.Prelude.{◌+◌, ◌≡◌, refl, List, [], ◌∷◌, ◌++◌}
use clash_for_android.Statistic.{
  Manager, upload, of_direction, Step, add_temp, add_total, publish, step, run_steps, push_traffic,
  tick, now_traffic, zero_counters, download, Work, push, turn, Shuffle, Interleaved,
}
use clash_for_android.Statistic.Traffic.{published, run_steps-conserves}

abbrev fresh : Manager
fresh = record { uploaded = zero_counters; downloaded = zero_counters }

-- Two pushes, with ticks between the halves of the second one and after it.
abbrev steps : List Step
steps =
    push_traffic upload 5
    ++ (add_temp upload 7 ∷ publish upload ∷ add_temp upload 1 ∷ add_total upload 7 ∷ [])
    ++ tick
    ++ (add_total upload 1 ∷ push_traffic upload 2)

speeds : (published upload steps fresh ≡ 13) × (now_traffic (run_steps steps fresh) ≡ (1, 0))
unfolding step
speeds = (refl, refl)

-- A push of 7 bytes, a turn of the ticker between its halves, and a push of 3 around the turn's end.
abbrev works : List Work
works = push upload 7 ∷ turn ∷ push upload 3 ∷ []

abbrev mixed : List Step
mixed =
    add_temp upload 7
    ∷ publish upload
    ∷ add_temp upload 3
    ∷ add_total upload 7
    ∷ publish download
    ∷ add_total upload 3
    ∷ []

mixed-Interleaved : Interleaved works mixed
mixed-Interleaved =
    Interleaved.add (push upload 7)
      (Interleaved.add turn
        (Interleaved.add (push upload 3) Interleaved.done
          (Shuffle.first (add_temp upload 3) (Shuffle.first (add_total upload 3) Shuffle.done)))
        (Shuffle.first (publish upload) (
          Shuffle.second (add_temp upload 3)
            (Shuffle.first (publish download) (Shuffle.second (add_total upload 3) Shuffle.done)))))
      (Shuffle.first (add_temp upload 7) (
        Shuffle.second (publish upload) (
          Shuffle.second (add_temp upload 3) (
            Shuffle.first (add_total upload 7) (
              Shuffle.second (publish download)
                (Shuffle.second (add_total upload 3) Shuffle.done))))))

run_steps-conserves_example :
    (published upload (mixed ++ tick) fresh ≡ 0 + 10)
    × ((of_direction upload (run_steps (mixed ++ tick) fresh)).total ≡ 0 + 10)
    × ((of_direction upload (run_steps (mixed ++ tick) fresh)).temp ≡ 0)
run_steps-conserves_example = run_steps-conserves upload works mixed fresh mixed-Interleaved
