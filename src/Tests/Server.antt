-- ===== src/Tests/Server.antt =====
-- Tests of the service.
use clash_for_android.Prelude.{
  ℕ, ◌<◌, ◌≡◌, ◌≢◌, refl, sym, String, true, false, some, none, [], ◌∷◌, arith, str_eq, str_eq_iff,
  ok, length, Bytes,
}
use mathlib.Core.List.{append-nil}
use clash_for_android.Server.Conn.{be32}
use clash_for_android.Server.Packet.RoundTrip.{
  Fits, frame, write_packets, read_packets, read_packets-write_packets,
}
use clash_for_android.Server.State.{Machine}
use clash_for_android.Server.Profile.{choose_all}
use clash_for_android.Server.Profile.Reload.{Reordered, choose_all-Reordered}
use clash_for_android.Server.Query.{test_replies, handle_url_test}
use clash_for_android.Server.Query.Replies.{answer, handle_url_test-answer}
use clash_for_android.Server.Event.{item, exit, pull}
use clash_for_android.Server.Event.Stream.{pull-stream}
use clash_for_android.Server.Tun.{messages, handle_tun_start}
use clash_for_android.Server.Command.{Feed, run, handle_connection, tun_start, ping_reply}
use clash_for_android.Server.Command.Dispatch.{handle_connection-short}
use clash_for_android.Tests.Samples.{compat, app, request, env, conn, machine}

small : (p : Bytes) → length p < 1000 → Fits p
small p h = omega arith

read_packets-write_packets_example :
    read_packets 2 (record conn { input = (write_packets ((1 ∷ 2 ∷ []) ∷ [] ∷ []) conn).sent })
    ≡ ok ((1 ∷ 2 ∷ []) ∷ [] ∷ [])
unfolding be32
read_packets-write_packets_example =
    read_packets-write_packets ((1 ∷ 2 ∷ []) ∷ [] ∷ []) conn conn (omega arith, (omega arith, tt))
      refl (omega arith)

differs : (a b : String) → str_eq a b ≡ false → a ≢ b
differs a b d e = ground (arith, str_eq_iff a b)

choose_all-Reordered_example :
    choose_all compat (("GLOBAL", "tokyo") ∷ ("media", "osaka") ∷ []) app
    ≡ choose_all compat (("media", "osaka") ∷ ("GLOBAL", "tokyo") ∷ []) app
choose_all-Reordered_example =
    choose_all-Reordered compat
      (Reordered.swap ("GLOBAL", "tokyo") ("media", "osaka") (differs "GLOBAL" "media" refl)
        Reordered.done)
      app

abbrev asked : Machine
asked = record machine { conn = record conn { input = frame (1 ∷ []) } }

handle_url_test-answer_example :
    read_packets 3 (record conn { input = (handle_url_test env asked).conn.sent })
    ≡ ok (answer env request app)
unfolding be32 test_replies
handle_url_test-answer_example =
    handle_url_test-answer env asked (1 ∷ []) [] request conn (omega arith)
      (sym (append-nil (frame (1 ∷ [])))) refl refl (omega arith, (omega arith, (omega arith, tt)))
      (omega arith)

pull-stream_example :
    (read_packets 2 (record conn {
      input = (pull (λ (n : ℕ). some (n ∷ [])) (item 1 ∷ item 2 ∷ exit ∷ item 3 ∷ []) conn).sent;
    })
      ≡ ok ((1 ∷ []) ∷ (2 ∷ []) ∷ []))
    × ((pull (λ (n : ℕ). some (n ∷ [])) (item 1 ∷ item 2 ∷ exit ∷ item 3 ∷ []) conn).closed ≡ true)
unfolding be32
pull-stream_example =
    pull-stream (λ n. some (n ∷ [])) (item 1 ∷ item 2 ∷ exit ∷ item 3 ∷ []) conn conn
      (omega arith, (omega arith, tt)) (omega arith) refl refl

abbrev feed : Feed
feed = record {
  ancillary = messages [];
  traffic = [];
  traffic_json = λ up down. none;
  logs = [];
  log_json = λ level text. none;
  totals = (0, 0);
  bandwidth = [];
  bandwidth_json = λ n. n ∷ [];
}

handle_connection-short_example :
    ((handle_connection env feed machine).conn.sent ≡ be32 ping_reply)
    × ((handle_connection env feed machine).conn.closed ≡ false)
    × ((handle_connection env feed machine).app ≡ app)
handle_connection-short_example =
    handle_connection-short env feed machine (omega arith) (omega arith)

one_message : (run env feed tun_start machine).panicked ≡ true
unfolding run handle_tun_start
one_message = refl
