-- ===== src/Server/Conn.antt =====
-- The connection that a handler is given (net.UnixConn, io.ReadFull, binary.Read and binary.Write
-- of the Go library, as the files of core/src/main/golang/server use them).
use clash_for_android.Prelude.{
  ℕ, ◌+◌, ◌-◌, ◌*◌, ◌/◌, ◌%◌, ◌^◌, ◌<◌, ◌≡◌, refl, Bool, true, [], ◌∷◌, ◌++◌, arith, leb,
  if◌then◌else◌, length, take, drop, Bytes, Result, ok, err, length-append, take-append,
  drop-append, AreBytes, le→leb, ap, ◌∙◌, ◌≤◌,
}

-- What Go reports. `eof` is a read of nothing, `unexpected_eof` a read that stopped short,
-- `broken_pipe` a write that the peer did not take, `write_size` the handler's own error.
pub data IoError : Type 0 where
  eof unexpected_eof broken_pipe write_size : IoError

-- `input` is what the peer sends and nobody has read yet, after which it closes its end. `room`
-- is how many more bytes the peer takes; `sent` is what it has been given.
pub record Conn : Type 0 where
  pub input : Bytes
  pub room : ℕ
  pub sent : Bytes
  pub closed : Bool

abbrev pub Io : Type 0 → Type 0
Io A = Conn → Result IoError A × Conn

-- io.ReadFull: all `n` bytes, or an error and whatever there was is consumed.
abbrev pub short_read : Bytes → IoError
short_read [] = eof
short_read _ = unexpected_eof

unfoldable pub read_full : ℕ → Io Bytes
read_full n c =
    if leb n (length c.input)
    then (ok (take n c.input), record c { input = drop n c.input })
    else (err (short_read c.input), record c { input = [] })

-- conn.Write: an error goes with fewer bytes than were given.
unfoldable pub write : Bytes → Io ℕ
write bs c =
    if leb (length bs) c.room
    then (ok (length bs), record c { room = c.room - length bs; sent = c.sent ++ bs })
    else (err broken_pipe, record c { room = 0; sent = c.sent ++ take c.room bs })

unfoldable pub close : Conn → Conn
close c = record c { closed = true }

-- binary.BigEndian for a uint32.
unfoldable pub be32 : ℕ → Bytes
be32 n = (n / 2 ^ 24) % 256 ∷ (n / 2 ^ 16) % 256 ∷ (n / 2 ^ 8) % 256 ∷ n % 256 ∷ []

unfoldable pub from_be32 : Bytes → ℕ
from_be32 (a ∷ b ∷ c ∷ d ∷ _) = a * 2 ^ 24 + b * 2 ^ 16 + c * 2 ^ 8 + d
from_be32 _ = 0

abbrev decode_u32 : Result IoError Bytes × Conn → Result IoError ℕ × Conn
decode_u32 (ok bs, c) = (ok (from_be32 bs), c)
decode_u32 (err e, c) = (err e, c)

-- binary.Read(client, binary.BigEndian, &n) for a uint32 n.
unfoldable pub read_u32 : Io ℕ
read_u32 c = decode_u32 (read_full 4 c)

pub from_be32-be32 : (n : ℕ) → n < 2 ^ 32 → from_be32 (be32 n) ≡ n
unfolding from_be32 be32
from_be32-be32 n h = omega arith

pub length-be32 : (n : ℕ) → length (be32 n) ≡ 4
unfolding be32
length-be32 n = refl

pub from_be32-lt : (bs : Bytes) → AreBytes bs → from_be32 bs < 2 ^ 32
unfolding from_be32
from_be32-lt [] h = omega arith
from_be32-lt (a ∷ []) h = omega arith
from_be32-lt (a ∷ b ∷ []) h = omega arith
from_be32-lt (a ∷ b ∷ c ∷ []) h = omega arith
from_be32-lt (a ∷ b ∷ c ∷ d ∷ r) h = omega arith

-- Reading just what is there first.
pub read_full-append :
    (xs ys : Bytes) (c : Conn)
    → read_full (length xs) (record c { input = xs ++ ys }) ≡ (ok xs, record c { input = ys })
unfolding read_full
read_full-append xs ys c = ground (arith, length-append xs ys, take-append xs ys, drop-append xs ys)

pub read_u32-be32 :
    (n : ℕ) (ys : Bytes) (c : Conn)
    → n < 2 ^ 32
    → read_u32 (record c { input = be32 n ++ ys }) ≡ (ok n, record c { input = ys })
unfolding read_u32 be32
read_u32-be32 n ys c h =
    ap decode_u32 (read_full-append (be32 n) ys c)
    ∙ ap (λ m. (ok m, record c { input = ys })) (from_be32-be32 n h)

pub write_room :
    (bs : Bytes) (c : Conn)
    → length bs ≤ c.room
    → write bs c ≡ (ok (length bs), record c { room = c.room - length bs; sent = c.sent ++ bs })
unfolding write
write_room bs c h = rw (le→leb _ _ h)

-- A read that wants more than there is fails, and leaves nothing.
pub read_full_short :
    (n : ℕ) (c : Conn)
    → length c.input < n
    → read_full n c ≡ (err (short_read c.input), record c { input = [] })
unfolding read_full
read_full_short n c h = ground arith

pub read_u32_short :
    (c : Conn)
    → length c.input < 4
    → read_u32 c ≡ (err (short_read c.input), record c { input = [] })
unfolding read_u32
read_u32_short c h = ap decode_u32 (read_full_short 4 c h)
