-- ===== src/Server/Select.antt =====
-- server/proxies.go: `setProxySelect` and `handleSetProxy`.
pub mod Order
use clash_for_android.Prelude.{
  ℕ, ◌==◌, String, Bool, true, false, Option, none, some, List, [], ◌∷◌, ◌++◌, Bytes, codes, Dict,
  lookup, insert, Result, ok, err,
}
use clash_for_android.Health.Proxy.{Member}
use clash_for_android.Group.Selector
use clash_for_android.Group.Selector.{Selector, SetError, proxy_not_exist}
use clash_for_android.Server.Conn.{Conn, IoError}
use clash_for_android.Server.Packet.{read_command_packet, write_command_packet}
use clash_for_android.Server.State.{Outbound, select, plain, foreign, App, Machine, Env}

pub data SelectError : Type 0 where
  unknown_proxy invalid_proxy : String → SelectError
  not_selector not_member : SelectError

-- err.Error()
unfoldable pub error_text : SelectError → Bytes
error_text (unknown_proxy name) = codes "Unknown proxy " ++ codes name
error_text (invalid_proxy name) = codes "Invalid proxy " ++ codes name
error_text not_selector = codes "Not selector"
error_text not_member = codes "proxy not exist"

abbrev pub stored :
    String → App → Result SetError (Unit {0}) × Selector → Result SelectError (Unit {0}) × App
stored name app (ok _, s) = (ok tt, record app { proxies = insert name (select s) app.proxies })
stored name app (err _, s) =
    (err not_member, record app { proxies = insert name (select s) app.proxies })

abbrev pub select_in :
    Member → String → String → App → Option Outbound → Result SelectError (Unit {0}) × App
select_in compat name chosen app none = (err (unknown_proxy name), app)
select_in compat name chosen app (some foreign) = (err (invalid_proxy name), app)
select_in compat name chosen app (some (plain m)) = (err not_selector, app)
select_in compat name chosen app (some (select s)) = stored name app (Selector.set compat chosen s)

-- `setProxySelect`. `Set` works on the selector that the map points to, so it is stored back.
unfoldable pub set_proxy_select :
    Member → String → String → App → Result SelectError (Unit {0}) × App
unfolding Selector.set
set_proxy_select compat name chosen app = select_in compat name chosen app (lookup name app.proxies)

abbrev pub outcome_text : Result SelectError (Unit {0}) → Bytes
outcome_text (ok _) = []
outcome_text (err e) = error_text e

-- The deferred write of a response; its error is ignored.
unfoldable pub respond : Bytes → Machine → Machine
unfolding write_command_packet
respond reply m = record m { conn = (write_command_packet reply m.conn).1 }

abbrev pub set_with : Env → Machine → Result SelectError (Unit {0}) × App → Machine
set_with env m (r, app) = respond (env.set_response (outcome_text r)) (record m { app = app })

abbrev pub set_from : Env → Machine → Result IoError Bytes × Conn → Machine
set_from env m (err e, c) = respond (env.set_response []) (record m { conn = c })
set_from env m (ok packet, c) =
    let (key, value) = env.set_request packet in
    set_with env (record m { conn = c }) (set_proxy_select env.compatible key value m.app)

-- `handleSetProxy`: a packet that cannot be read gets the response of a success.
unfoldable pub handle_set_proxy : Env → Machine → Machine
unfolding set_proxy_select respond error_text
handle_set_proxy env m = set_from env m (read_command_packet m.conn)
