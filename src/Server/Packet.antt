-- ===== src/Server/Packet.antt =====
-- server/utils.go: packets with a length in front.
pub mod RoundTrip
use clash_for_android.Prelude.{
  ℕ, ◌%◌, ◌^◌, Bool, Bytes, Result, ok, err, ◌==◌, if◌then◌else◌, length, [],
}
use clash_for_android.Server.Conn.{Conn, Io, IoError, write_size, read_full, read_u32, write, be32}

abbrev pub u32_mod : ℕ
u32_mod = 2 ^ 32

-- The packet that a handler gets: Go's nil slice is `none` there, and here the empty list.
abbrev read_body : ℕ → Result IoError Bytes × Conn → Result IoError Bytes × Conn
read_body size (ok bs, c) = if length bs % u32_mod == size then (ok bs, c) else (ok [], c)
read_body size (err e, c) = (err e, c)

abbrev read_after_size : Result IoError ℕ × Conn → Result IoError Bytes × Conn
read_after_size (ok size, c) = read_body size (read_full size c)
read_after_size (err e, c) = (err e, c)

unfoldable pub read_command_packet : Io Bytes
read_command_packet c = read_after_size (read_u32 c)

abbrev written : ℕ → Result IoError ℕ × Conn → Result IoError (Unit {0}) × Conn
written size (ok n, c) = if n == size then (ok tt, c) else (err write_size, c)
written size (err e, c) = (err e, c)

abbrev write_body : Bytes → Result IoError ℕ × Conn → Result IoError (Unit {0}) × Conn
write_body buffer (ok _, c) = written (length buffer) (write buffer c)
write_body buffer (err e, c) = (err e, c)

unfoldable pub write_command_packet : Bytes → Io (Unit {0})
write_command_packet buffer c = write_body buffer (write (be32 (length buffer % u32_mod)) c)
