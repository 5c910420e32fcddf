-- ===== src/Server/Command.antt =====
-- server/server.go and server/ping.go: the table of handlers, and one connection.
pub mod Dispatch
use clash_for_android.Prelude.{
  ℕ, ◌==◌, Bytes, Bool, List, Option, none, some, Result, ok, err, if◌then◌else◌,
}
use clash_for_android.Server.Conn.{Conn, IoError, read_u32, write, be32, close}
use clash_for_android.Server.State.{App, Machine, Env}
use clash_for_android.Server.Select.{handle_set_proxy}
use clash_for_android.Server.Profile.{handle_profile_default, handle_profile_reload}
use clash_for_android.Server.Query.{handle_query_general, handle_query_proxies, handle_url_test}
use clash_for_android.Server.Event
use clash_for_android.Server.Event.{Event, LogLevel}
use clash_for_android.Server.Tun.{Ancillary, handle_tun_start, handle_tun_stop}

pub data Command : Type 0 where
  ping tun_start tun_stop profile_default profile_reload query_proxies : Command
  pull_traffic pull_log pull_bandwidth set_proxy query_general url_test : Command

-- The constants and the table that `init` fills.
unfoldable pub handlers : ℕ → Option Command
handlers n =
    if n == 0
    then some ping
    else if n == 1
    then some tun_start
    else if n == 2
    then some tun_stop
    else if n == 3
    then some profile_default
    else if n == 4
    then some profile_reload
    else if n == 5
    then some query_proxies
    else if n == 6
    then some pull_traffic
    else if n == 7
    then some pull_log
    else if n == 8
    then some pull_bandwidth
    else if n == 9
    then some set_proxy
    else if n == 10
    then some query_general
    else if n == 11
    then some url_test
    else none

-- What reaches a connection besides its bytes: the control message, the events of the streams and
-- the JSON of their packets.
pub record Feed : Type 0 where
  pub ancillary : Ancillary
  pub traffic : List (Event (ℕ × ℕ))
  pub traffic_json : ℕ → ℕ → Option Bytes
  pub logs : List (Event (LogLevel × Bytes))
  pub log_json : ℕ → Bytes → Option Bytes
  pub totals : ℕ × ℕ
  pub bandwidth : List (Event (ℕ × ℕ))
  pub bandwidth_json : ℕ → Bytes

abbrev pub ping_reply : ℕ
ping_reply = 233

unfoldable pub handle_ping : Machine → Machine
unfolding write be32
handle_ping m = record m { conn = (write (be32 ping_reply) m.conn).1 }

abbrev with_conn : Machine → Conn → Machine
with_conn m c = record m { conn = c }

unfoldable pub run : Env → Feed → Command → Machine → Machine
run env feed ping m = handle_ping m
run env feed tun_start m = handle_tun_start feed.ancillary m
run env feed tun_stop m = handle_tun_stop m
run env feed profile_default m = handle_profile_default m
run env feed profile_reload m = handle_profile_reload env m
run env feed query_proxies m = handle_query_proxies env m
run env feed pull_traffic m = with_conn m (Event.pull_traffic feed.traffic_json feed.traffic m.conn)
run env feed pull_log m = with_conn m (Event.pull_log feed.log_json feed.logs m.conn)
run env feed pull_bandwidth m =
    with_conn m (Event.pull_bandwidth feed.bandwidth_json feed.totals feed.bandwidth m.conn)
run env feed set_proxy m = handle_set_proxy env m
run env feed query_general m = handle_query_general env m
run env feed url_test m = handle_url_test env m

abbrev pub dispatch : Env → Feed → Machine → Option Command → Machine
dispatch env feed m none = with_conn m (close m.conn)
dispatch env feed m (some command) = run env feed command m

-- After a read that fails `command` is still 0, and the handler of that number runs.
abbrev pub command_or_zero : Result IoError ℕ → ℕ
command_or_zero (ok n) = n
command_or_zero (err _) = 0

abbrev pub handle_read : Env → Feed → Machine → Result IoError ℕ × Conn → Machine
handle_read env feed m (r, c) = dispatch env feed (with_conn m c) (handlers (command_or_zero r))

unfoldable pub handle_connection : Env → Feed → Machine → Machine
unfolding handlers
handle_connection env feed m = handle_read env feed m (read_u32 m.conn)
