-- ===== src/Server/Command/Dispatch.antt =====
-- What the dispatch does with a command that does not come, and where a handler panics (`handleConnection` of server/server.go).
use clash_for_android.Prelude.{
  ℕ, ◌≤◌, ◌<◌, ◌≡◌, ◌≢◌, refl, true, List, [], ◌∷◌, ◌++◌, Option, length,
}
use clash_for_android.Server.Conn.{read_u32_short, write_room, be32}
use clash_for_android.Server.State.{Machine, Env}
use clash_for_android.Server.Tun.{messages, handle_tun_start}
use clash_for_android.Server.Command.{
  tun_start, Feed, handle_ping, run, handle_connection, ping_reply,
}

-- A connection that ends before its command, with room for the four bytes of the reply, is answered
-- like a ping: the reply is written and the connection stays open, and the state of the program
-- does not change.
pub handle_connection-short :
    (env : Env) (feed : Feed) (m : Machine)
    → length m.conn.input < 4
    → 4 ≤ m.conn.room
    → ((handle_connection env feed m).conn.sent ≡ m.conn.sent ++ be32 ping_reply)
      × ((handle_connection env feed m).conn.closed ≡ m.conn.closed)
      × ((handle_connection env feed m).app ≡ m.app)
unfolding handle_connection run handle_ping
handle_connection-short env feed m short room =
    let c = record m.conn { input = [] } in
    let w = write_room (be32 ping_reply) c room in
    (
      rw (read_u32_short m.conn short, w),
      rw (read_u32_short m.conn short, w),
      rw (read_u32_short m.conn short),
    )

-- With no control message, or several, the handler that starts the tun device panics.
pub tun_start-panics :
    (env : Env) (feed : Feed) (m : Machine) (ms : List (Option (List ℕ)))
    → feed.ancillary ≡ messages ms
    → length ms ≢ 1
    → (run env feed tun_start m).panicked ≡ true
unfolding run handle_tun_start
tun_start-panics env feed m [] e h = rw e
tun_start-panics env feed m (x ∷ []) e h = absurd (h refl)
tun_start-panics env feed m (x ∷ y ∷ r) e h = rw e
