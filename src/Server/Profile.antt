-- ===== src/Server/Profile.antt =====
-- server/profile.go and profile/load.go: configurations.
pub mod Reload
use clash_for_android.Prelude.{String, List, [], ◌∷◌, Bytes, Option, none, some, Result, ok, err}
use clash_for_android.Health.Proxy.{Member}
use clash_for_android.Server.Conn.{Conn, IoError}
use clash_for_android.Server.Packet.{read_command_packet}
use clash_for_android.Server.State.{App, Machine, Env}
use clash_for_android.Server.Select.{set_proxy_select, respond}

-- `ResetDnsRedirect` only writes to the log, and so does `LoadDefault`, which is all that
-- `handleProfileDefault` calls.
unfoldable pub handle_profile_default : Machine → Machine
handle_profile_default m = m

-- `LoadFromFile`
abbrev pub applied : App → Result Bytes (App → App) → Result Bytes App
applied app (ok apply) = ok (apply app)
applied app (err e) = err e

unfoldable pub load_from_file : Env → String → App → Result Bytes App
load_from_file env path app = applied app (env.load path)

-- The loop over `payload.Selected`, in the order in which Go ranges over the map. What
-- `setProxySelect` returns is dropped.
unfoldable pub choose_all : Member → List (String × String) → App → App
unfolding set_proxy_select
choose_all compat [] app = app
choose_all compat ((k, v) ∷ rest) app = choose_all compat rest (set_proxy_select compat k v app).1

abbrev pub reload_with : Env → Machine → List (String × String) → Result Bytes App → Machine
reload_with env m choices (err e) = respond (env.reload_response e) m
reload_with env m choices (ok app) =
    respond (env.reload_response []) (record m { app = choose_all env.compatible choices app })

abbrev pub reload_request : Env → Machine → Option (String × List (String × String)) → Machine
reload_request env m none = respond (env.reload_response []) m
reload_request env m (some (path, choices)) =
    reload_with env m choices (load_from_file env path m.app)

abbrev pub reload_from : Env → Machine → Result IoError Bytes × Conn → Machine
reload_from env m (err e, c) = record m { conn = c }
reload_from env m (ok packet, c) =
    reload_request env (record m { conn = c }) (env.reload_request packet)

-- `handleProfileReload`. The argument of `reload_response` is the error; the list of invalid
-- choices of the response is empty in every run, since nothing writes to it.
unfoldable pub handle_profile_reload : Env → Machine → Machine
unfolding load_from_file choose_all respond
handle_profile_reload env m = reload_from env m (read_command_packet m.conn)
