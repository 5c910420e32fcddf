-- ===== src/Server/Event.antt =====
-- server/event.go: the handlers that send one packet after the other until the client stops them.
-- What the loop's `select` meets is a list of events: a tick with the counters, or a log message,
-- or the end of the goroutine that reads from the client.
pub mod Stream
use clash_for_android.Prelude.{ℕ, ◌+◌, List, [], ◌∷◌, Bytes, Option, none, some, Result, ok, err}
use clash_for_android.Server.Conn.{Conn, IoError, close}
use clash_for_android.Server.Packet.{write_command_packet}

pub data Event (A : Type 0) : Type 0 where
  item : A → Event A
  exit : Event A

-- log/level.go
pub data LogLevel : Type 0 where
  debug info warning error silent : LogLevel

-- `payload.Level`
unfoldable pub level_number : LogLevel → ℕ
level_number debug = 1
level_number info = 2
level_number warning = 3
level_number error = 4
level_number silent = 0

abbrev pub or_close : (Conn → Conn) → Result IoError (Unit {0}) × Conn → Conn
or_close k (ok _, c) = k c
or_close k (err _, c) = close c

abbrev pub send : (Conn → Conn) → Conn → Option Bytes → Conn
send k c none = close c
send k c (some packet) = or_close k (write_command_packet packet c)

-- The loops of `handlePullTrafficEvent` and `handlePullLogEvent`: a payload that cannot be encoded
-- or written ends them, and the deferred calls close the connection. With no events left the loop
-- still waits.
unfoldable pub pull : {A : Type 0} → (A → Option Bytes) → List (Event A) → Conn → Conn
unfolding close write_command_packet
pull encode [] c = c
pull encode (exit ∷ es) c = close c
pull encode (item a ∷ es) c = send (pull encode es) c (encode a)

-- Up and down in this second.
unfoldable pub pull_traffic : (ℕ → ℕ → Option Bytes) → List (Event (ℕ × ℕ)) → Conn → Conn
unfolding pull
pull_traffic encode = pull (λ t. encode t.0 t.1)

unfoldable pub pull_log : (ℕ → Bytes → Option Bytes) → List (Event (LogLevel × Bytes)) → Conn → Conn
unfolding pull level_number
pull_log encode = pull (λ t. encode (level_number t.0) t.1)

-- The loop of `handlePullBandwidthEvent`; an error of the encoder is ignored there. An item is the
-- download and the upload total.
unfoldable pub bandwidth_loop : (ℕ → Bytes) → List (Event (ℕ × ℕ)) → Conn → Conn
unfolding pull
bandwidth_loop encode = pull (λ t. some (encode (t.0 + t.1)))

-- The first packet is sent before the loop, and its error is ignored.
unfoldable pub pull_bandwidth : (ℕ → Bytes) → ℕ × ℕ → List (Event (ℕ × ℕ)) → Conn → Conn
unfolding bandwidth_loop
pull_bandwidth encode totals es c =
    bandwidth_loop encode es (write_command_packet (encode (totals.0 + totals.1)) c).1
