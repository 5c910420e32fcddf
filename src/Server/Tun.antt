-- ===== src/Server/Tun.antt =====
-- server/tun.go and tun/tun.go.
use clash_for_android.Prelude.{
  ℕ, ◌==◌, true, List, [], ◌∷◌, Option, none, some, Result, ok, err, if◌then◌else◌,
}
use clash_for_android.Server.Conn.{Conn, IoError, read_u32}
use clash_for_android.Server.State.{App, Machine}

abbrev pub tun_command_end : ℕ
tun_command_end = 0x243

-- What comes with the first message: `ReadMsgUnix` fails; the control messages cannot be parsed;
-- or these, each with the file descriptors that it carries, if it is one that carries them.
pub data Ancillary : Type 0 where
  unread unparsed : Ancillary
  messages : List (Option (List ℕ)) → Ancillary

unfoldable pub stop_tun_proxy : App → App
stop_tun_proxy app = record app { tun = none }

-- `StartTunProxy`; it never returns an error.
unfoldable pub start_tun_proxy : ℕ → ℕ → App → App
unfolding stop_tun_proxy
start_tun_proxy fd mtu app = record (stop_tun_proxy app) {
  tun = some (record { fd = fd; mtu = mtu });
}

abbrev pub number_or_zero : Result IoError ℕ → ℕ
number_or_zero (ok n) = n
number_or_zero (err _) = 0

abbrev pub panic : Machine → Machine
panic m = record m { panicked = true }

-- The reads of `mtu` and `end` ignore their errors; `fds[0]` panics if there is none.
abbrev pub started : Machine → ℕ → List ℕ → Machine
started m mtu [] = panic m
started m mtu (fd ∷ _) = record m { app = start_tun_proxy fd mtu m.app }

abbrev pub ended : Machine → ℕ → List ℕ → Result IoError ℕ × Conn → Machine
ended m mtu fds (r, c) =
    if number_or_zero r == tun_command_end
    then started (record m { conn = c }) mtu fds
    else record m { conn = c }

abbrev pub sized : Machine → List ℕ → Result IoError ℕ × Conn → Machine
sized m fds (r, c) = ended m (number_or_zero r) fds (read_u32 c)

-- The test `err != nil || len(msg) != 1` leads to err.Error(), also where err is nil: a message
-- that parses into none or several panics. An entry that carries no descriptors is an error.
unfoldable pub handle_tun_start : Ancillary → Machine → Machine
unfolding start_tun_proxy
handle_tun_start unread m = m
handle_tun_start unparsed m = m
handle_tun_start (messages []) m = panic m
handle_tun_start (messages (none ∷ [])) m = m
handle_tun_start (messages (some fds ∷ [])) m = sized m fds (read_u32 m.conn)
handle_tun_start (messages (_ ∷ _ ∷ _)) m = panic m

unfoldable pub handle_tun_stop : Machine → Machine
unfolding stop_tun_proxy
handle_tun_stop m = record m { app = stop_tun_proxy m.app }
