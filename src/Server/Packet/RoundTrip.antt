-- ===== src/Server/Packet/RoundTrip.antt =====
-- What is written with server/utils.go is read back with it, packet by packet.
use clash_for_android.Prelude.{
  ℕ, zero, suc, ◌+◌, ◌-◌, ◌%◌, ◌≤◌, ◌<◌, ◌≡◌, refl, List, [], ◌∷◌, ◌++◌, arith, Bytes, Result, ok,
  err, length, take, All, length-append, length-take, take-append_ge, sym, ◌∙◌, Bool-cases, ltb,
  inl, inr,
}
use mathlib.Core.List.{append_assoc, append-nil}
use clash_for_android.Server.Conn.{
  Conn, IoError, be32, length-be32, read_full-append, read_u32-be32, write_room, short_read,
  read_full_short, read_u32_short,
}
use clash_for_android.Server.Packet.{u32_mod, read_command_packet, write_command_packet}

-- The bytes of a packet on the wire.
abbrev pub frame : Bytes → Bytes
frame p = be32 (length p) ++ p

pub length-frame : (p : Bytes) → length (frame p) ≡ length p + 4
length-frame p = omega (arith, length-append (be32 (length p)) p, length-be32 (length p))

-- The length of the packet fits its four bytes.
abbrev pub Fits : Bytes → Type 0
Fits p = length p < u32_mod

pub write-frame :
    (p : Bytes) (c : Conn)
    → Fits p
    → length p + 4 ≤ c.room
    → write_command_packet p c
      ≡ (ok tt, record c { room = c.room - (length p + 4); sent = c.sent ++ frame p })
unfolding write_command_packet
write-frame p c fits room =
    let small : length p % u32_mod ≡ length p = omega arith in
    let c' = record c { room = c.room - 4; sent = c.sent ++ be32 (length p) } in
    rw
      (
        small,
        write_room (be32 (length p)) c (omega (arith, length-be32 (length p))),
        length-be32,
        write_room p c' (omega arith),
      )
      (ground (arith, append_assoc c.sent (be32 (length p)) p))

pub read-frame :
    (p rest : Bytes) (c : Conn)
    → Fits p
    → read_command_packet (record c { input = frame p ++ rest }) ≡ (ok p, record c { input = rest })
unfolding read_command_packet
read-frame p rest c fits =
    rw (append_assoc, read_u32-be32 (length p) (p ++ rest) c fits, read_full-append p rest c)
      (ground arith)

-- A prefix of a packet is refused with Go's error for a read that stopped early.
pub read_truncated :
    (p : Bytes) (n : ℕ) (c : Conn)
    → Fits p
    → n < length (frame p)
    → (e : IoError) × (read_command_packet (record c { input = take n (frame p) })
        ≡ (err e, record c { input = [] }))
unfolding read_command_packet
read_truncated p n c fits h = elim (Bool-cases (ltb n 4)) [
  | inl early ↦
      let short : length (take n (frame p)) ≡ n = length-take n (frame p) (omega arith) in
      (
        short_read (take n (frame p)),
        rw (read_u32_short (record c { input = take n (frame p) }) (ground arith)),
      )
  | inr late ↦
      let body = take (n - 4) p in
      let c' = record c { input = body } in
      let late' : 4 ≤ n = ground arith in
      let split = take-append_ge (be32 (length p)) p n (omega (arith, length-be32 (length p))) in
      (
        short_read body,
        rw (
          split,
          length-be32,
          read_u32-be32 (length p) body c fits,
          read_full_short (length p) c' (
              omega (arith, length-frame p, length-take (n - 4) p (omega (arith, length-frame p)))),
        ),
      )
]

abbrev pub frames : List Bytes → Bytes
frames [] = []
frames (p ∷ ps) = frame p ++ frames ps

abbrev then_write : (Conn → Conn) → Result IoError (Unit {0}) × Conn → Conn
then_write k (ok _, c) = k c
then_write k (err _, c) = c

-- The packets one after the other, until a write fails.
unfoldable pub write_packets : List Bytes → Conn → Conn
write_packets [] c = c
write_packets (p ∷ ps) c = then_write (write_packets ps) (write_command_packet p c)

abbrev then_read : Bytes → Result IoError (List Bytes) → Result IoError (List Bytes)
then_read p (ok ps) = ok (p ∷ ps)
then_read p (err e) = err e

abbrev read_on :
    (Conn → Result IoError (List Bytes)) → Result IoError Bytes × Conn → Result IoError (List Bytes)
read_on k (ok p, c) = then_read p (k c)
read_on k (err e, c) = err e

unfoldable pub read_packets : ℕ → Conn → Result IoError (List Bytes)
read_packets zero c = ok []
read_packets (suc n) c = read_on (read_packets n) (read_command_packet c)

write_packets-frames :
    (ps : List Bytes) (c : Conn)
    → All Fits ps
    → length (frames ps) ≤ c.room
    → (write_packets ps c).sent ≡ c.sent ++ frames ps
unfolding write_packets
write_packets-frames [] c fits room = sym (append-nil c.sent)
write_packets-frames (p ∷ ps) c (f, fs) room =
    let bound : length p + 4 + length (frames ps) ≤ c.room =
      omega (arith, length-append (frame p) (frames ps), length-frame p) in
    rw (write-frame p c f (omega arith)) (
      write_packets-frames ps
        (record c { room = c.room - (length p + 4); sent = c.sent ++ frame p }) fs (omega arith)
      ∙ append_assoc c.sent (frame p) (frames ps))

pub read_packets-frames :
    (ps : List Bytes) (rest : Bytes) (c : Conn)
    → All Fits ps
    → read_packets (length ps) (record c { input = frames ps ++ rest }) ≡ ok ps
unfolding read_packets
read_packets-frames [] rest c fits = refl
read_packets-frames (p ∷ ps) rest c (f, fs) =
    rw (append_assoc, read-frame p (frames ps ++ rest) c f, read_packets-frames ps rest c fs)

-- A run of packets that the peer has room for is received as it was sent: the bytes written on a
-- fresh connection read back as the same list of packets.
pub read_packets-write_packets :
    (ps : List Bytes) (c d : Conn)
    → All Fits ps
    → c.sent ≡ []
    → length (frames ps) ≤ c.room
    → read_packets (length ps) (record d { input = (write_packets ps c).sent }) ≡ ok ps
read_packets-write_packets ps c d fits fresh room =
    rw (write_packets-frames ps c fits room, fresh, ← append-nil (frames ps))
      (read_packets-frames ps [] d fits)
