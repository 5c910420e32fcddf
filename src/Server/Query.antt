-- ===== src/Server/Query.antt =====
-- server/proxies.go and server/http.go: the queries, and the URL tests of a request.
pub mod Replies
use clash_for_android.Prelude.{
  ℕ, String, List, [], ◌∷◌, Bytes, Option, none, some, Dict, lookup, Result, ok, err,
}
use clash_for_android.Server.Conn.{Conn, IoError}
use clash_for_android.Server.Packet.{read_command_packet, write_command_packet}
use clash_for_android.Server.State.{
  Outbound, Mode, global, rule, direct, App, Machine, General, TestRequest, Env,
}
use clash_for_android.Server.Select.{respond}

-- `startRandomHttpPort`: the address of the listener, if there is one.
unfoldable pub start_random_http_port : Option String → App → App
start_random_http_port none app = app
start_random_http_port (some address) app = record app { http_listener = some address }

-- modeDirect, modeGlobal and modeRule
unfoldable pub mode_number : Mode → ℕ
mode_number direct = 1
mode_number global = 2
mode_number rule = 3

-- TunnelMode.String of tunnel/mode.go
unfoldable pub mode_name : Mode → String
mode_name global = "global"
mode_name rule = "rule"
mode_name direct = "direct"

abbrev random_port : Env → Option String → ℕ
random_port env none = 0
random_port env (some address) = env.port_of address

unfoldable pub general : Env → App → General
unfolding mode_number
general env app = record {
  http = app.ports.port;
  socks = app.ports.socks_port;
  redirect = app.ports.redir_port;
  random_http = random_port env app.http_listener;
  mode = mode_number app.mode;
}

unfoldable pub handle_query_general : Env → Machine → Machine
unfolding general respond
handle_query_general env m = respond (env.general_response (general env m.app)) m

-- The loop over the proxies: one that has no JSON is left out.
abbrev keep_some : String → Option Bytes → Dict Bytes → Dict Bytes
keep_some k none rest = rest
keep_some k (some b) rest = (k, b) ∷ rest

unfoldable pub proxy_list : Env → Dict Outbound → Dict Bytes
proxy_list env [] = []
proxy_list env ((k, p) ∷ rest) = keep_some k (env.proxy_json k p) (proxy_list env rest)

unfoldable pub handle_query_proxies : Env → Machine → Machine
unfolding proxy_list mode_name respond
handle_query_proxies env m =
    respond (env.proxies_response (mode_name m.app.mode) (proxy_list env m.app.proxies)) m

-- What a test puts into the channel: nothing for a name that is not there or a test that fails.
abbrev pub encoded : Env → String → Option ℕ → Option Bytes
encoded env name none = none
encoded env name (some delay) = some (env.test_response name delay)

abbrev pub tested_proxy : Env → TestRequest → String → Option Outbound → Option Bytes
tested_proxy env r name none = none
tested_proxy env r name (some p) = encoded env name (env.test name r.url r.timeout)

abbrev pub keep_reply : Option Bytes → List Bytes → List Bytes
keep_reply none rest = rest
keep_reply (some b) rest = b ∷ rest

-- The responses, in the order in which the tests end.
unfoldable pub test_replies : Env → TestRequest → App → List String → List Bytes
test_replies env r app [] = []
test_replies env r app (name ∷ rest) =
    keep_reply (tested_proxy env r name (lookup name app.proxies)) (test_replies env r app rest)

-- The loop that takes responses from the channel; an error of a write is ignored.
unfoldable pub write_each : List Bytes → Conn → Conn
unfolding write_command_packet
write_each [] c = c
write_each (b ∷ bs) c = write_each bs (write_command_packet b c).1

abbrev pub test_with : Env → Machine → Option TestRequest → Machine
test_with env m none = m
test_with env m (some r) =
    respond []
      (record m { conn = write_each (test_replies env r m.app (env.finish r.names)) m.conn })

abbrev pub test_from : Env → Machine → Result IoError Bytes × Conn → Machine
test_from env m (err e, c) = record m { conn = c }
test_from env m (ok packet, c) = test_with env (record m { conn = c }) (env.test_request packet)

unfoldable pub handle_url_test : Env → Machine → Machine
unfolding test_replies write_each respond
handle_url_test env m = test_from env m (read_command_packet m.conn)
