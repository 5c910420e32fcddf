-- ===== src/Socks5/Session.antt =====
-- The steps of a handshake on a connection, in the style of Go's early returns, and what a run of
-- steps reads and writes.
use mathlib.Core.List.{append_assoc, append-nil}
use clash_for_android.Prelude.{
  ℕ, ◌-◌, ◌≤◌, ◌≡◌, [], ◌++◌, Bytes, Result, ok, err, length, length-append, arith,
}
use clash_for_android.Server.Conn.{Conn, IoError, read_full, write, read_full-append, write_room}

pub data SocksError : Type 0 where
  failed : IoError → SocksError
  short_buffer address_not_supported auth_failed command_not_supported : SocksError
  version_error rejected need_auth : SocksError

-- A step: the value or the error that it returns, and the connection afterwards.
abbrev pub Session : Type 0 → Type 0
Session A = Conn → Result SocksError A × Conn

abbrev pub then :
    {A B : Type 0} → Result SocksError A × Conn → (A → Session B) → Result SocksError B × Conn
then (ok a, c) k = k a c
then (err e, c) k = (err e, c)

infixl 5 ◌>>=◌
unfoldable pub ◌>>=◌ : {A B : Type 0} → Session A → (A → Session B) → Session B
(m >>= k) c = then (m c) k

unfoldable pub give : {A : Type 0} → A → Session A
give a c = (ok a, c)

unfoldable pub raise : {A : Type 0} → SocksError → Session A
raise e c = (err e, c)

abbrev lifted : {A : Type 0} → Result IoError A × Conn → Result SocksError A × Conn
lifted (ok a, c) = (ok a, c)
lifted (err e, c) = (err (failed e), c)

-- io.ReadFull into a part of a buffer.
unfoldable pub receive : ℕ → Session Bytes
receive n c = lifted (read_full n c)

unfoldable pub transmit : Bytes → Session ℕ
transmit bs c = lifted (write bs c)

-- A write whose error is dropped, before the session ends with an error of its own.
unfoldable pub send_and_raise : {A : Type 0} → Bytes → SocksError → Session A
send_and_raise bs e c = (err e, (write bs c).1)

-- The session reads these bytes, writes those, and gives the value, whatever comes after on a
-- connection with room.
abbrev pub Says : {A : Type 0} → Session A → Bytes → Bytes → A → Type 0
Says m reads writes a =
    (rest : Bytes) (c : Conn)
    → length writes ≤ c.room
    → m (record c { input = reads ++ rest })
      ≡ (ok a, record c { input = rest; room = c.room - length writes; sent = c.sent ++ writes })

pub give-Says : {A : Type 0} (a : A) → Says (give a) [] [] a
unfolding give
give-Says a rest c room = ground (arith, append-nil c.sent)

pub receive-Says : (n : ℕ) (bs : Bytes) → length bs ≡ n → Says (receive n) bs [] bs
unfolding receive
receive-Says n bs e rest c room =
    rw (← e, read_full-append bs rest c) (ground (arith, append-nil c.sent))

pub transmit-Says : (bs : Bytes) → Says (transmit bs) [] bs (length bs)
unfolding transmit
transmit-Says bs rest c room = rw (write_room bs (record c { input = rest }) room)

pub >>=-Says :
    {A B : Type 0} (m : Session A) (k : A → Session B) (r w r' w' : Bytes) (a : A) (b : B)
    → Says m r w a
    → Says (k a) r' w' b
    → Says (m >>= k) (r ++ r') (w ++ w') b
unfolding ◌>>=◌
>>=-Says m k r w r' w' a b h h' rest c room =
    let c' = record c { input = r' ++ rest; room = c.room - length w; sent = c.sent ++ w } in
    rw
      (
        append_assoc,
        h (r' ++ rest) c (omega (arith, length-append w w')),
        h' rest c' (omega (arith, length-append w w')),
      )
      (ground (arith, append_assoc c.sent w w', length-append w w'))
