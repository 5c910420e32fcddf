-- ===== src/Trojan/Reading.antt =====
-- Packets read back from the stream in buffers of any size (transport/trojan/trojan.go).
use mathlib.Core.List.{append_assoc}
use clash_for_android.Prelude.{
  ℕ, ◌-◌, ◌==◌, ◌≡◌, ◌≤◌, ◌<◌, refl, sym, ap, ◌∙◌, true, false, List, [], ◌∷◌, ◌++◌, Bytes,
  if◌then◌else◌, length, take, drop, All, arith, length-take, take-append-drop, Bool-cases, inl,
  inr, Option, none, some, Result, ok,
}
use clash_for_android.Server.Conn.{Conn}
use clash_for_android.Socks5.Address.{max_addr_len}
use clash_for_android.Socks5.Address.Udp.{IsAddr}
use clash_for_android.Trojan.{
  packet_frame, write_packet, UdpAddr, udp_addr, TrojanError, lesser, read_packet, PacketConn,
  from_packet, from_remain, read_from,
}
use clash_for_android.Trojan.Frames.{
  lesser-le, read_packet-packet_frame, take-append-le, drop-append-le,
}
use clash_for_android.Trojan.Writing.{
  length-drop, joined, framed, IsPart, write_packet-Written, parts_of,
}

-- The connection holds these bytes of packets to an address, in what is left of a packet and in
-- frames, and others after them.
pub record IsPending (addr : Bytes) (from : UdpAddr) (pc : PacketConn) (todo rest : Bytes)
    : Type 0 where
  pub head : Bytes
  pub parts : List Bytes
  pub sum : todo ≡ head ++ joined parts
  pub fit : All IsPart parts
  pub remaining : pc.remain ≡ length head
  pub known : 0 < length head → pc.r_addr ≡ some from
  pub waiting : pc.conn.input ≡ head ++ (framed addr parts ++ rest)

-- A Read gives something where there is something, and no more than is asked for.
abbrev pub IsReader : (ℕ → Bytes → ℕ) → Type 0
IsReader portion =
    (want : ℕ) (bytes : Bytes)
    → 0 < want
    → 0 < length bytes
    → (0 < portion want bytes) × (portion want bytes ≤ want) × (portion want bytes ≤ length bytes)

-- What a call of ReadFrom does to the bytes that are to come.
abbrev pub Gives :
    Bytes
    → UdpAddr
    → Bytes
    → Bytes
    → ℕ
    → Result TrojanError (Bytes × Option UdpAddr) × PacketConn
    → Type 0
Gives addr from todo rest size got =
    (piece : Bytes) × (left : Bytes) × (after : PacketConn) × (got ≡ (ok (piece, some from), after))
    × (todo ≡ piece ++ left)
    × (0 < length piece)
    × (length piece ≤ size)
    × IsPending addr from after left rest

module _ (portion : ℕ → Bytes → ℕ) (reader : IsReader portion) (addr : Bytes) (from : UdpAddr) where
  read_head :
      (size h : ℕ) (hs rest : Bytes) (parts : List Bytes) (pc : PacketConn)
      → 0 < size
      → All IsPart parts
      → pc.remain ≡ length (h ∷ hs)
      → pc.r_addr ≡ some from
      → pc.conn.input ≡ (h ∷ hs) ++ (framed addr parts ++ rest)
      → Gives addr from
          ((h ∷ hs) ++ joined parts)
          rest
          size
          (from_remain portion size pc pc.conn.input)
  read_head size h hs rest parts pc positive fit remaining known waiting =
      let input = (h ∷ hs) ++ (framed addr parts ++ rest) in
      let n = portion (lesser pc.remain size) input in
      let law = reader (lesser pc.remain size) input (ground (arith, remaining)) (omega arith) in
      let inside : n ≤ length (h ∷ hs) =
        omega (arith, law.1, lesser-le pc.remain size, remaining) in
      let piece = take n (h ∷ hs) in
      let size_of_piece = length-take n (h ∷ hs) inside in
      let left = length-drop n (h ∷ hs) in
      let cut = take-append-drop n (h ∷ hs) in
      let bounded : lesser pc.remain size ≤ size = ground arith in
      (
        piece,
        drop n (h ∷ hs) ++ joined parts,
        record {
          conn = record pc.conn { input = drop n (h ∷ hs) ++ (framed addr parts ++ rest) };
          remain = pc.remain - n;
          r_addr = if pc.remain - n == 0 then none else pc.r_addr;
        },
        rw
            (
              waiting,
              take-append-le n (h ∷ hs) (framed addr parts ++ rest) inside,
              drop-append-le n (h ∷ hs) (framed addr parts ++ rest) inside,
              known,
            )
            refl,
        ap (λ (x : Bytes). x ++ joined parts) (sym cut)
            ∙ append_assoc piece (drop n (h ∷ hs)) (joined parts),
        omega (arith, size_of_piece, law.0),
        omega (arith, size_of_piece, law.1, bounded),
        record {
          head = drop n (h ∷ hs);
          parts = parts;
          sum = refl;
          fit = fit;
          remaining = omega (arith, left, remaining);
          known = λ more.
              let open_rest : (pc.remain - n == 0) ≡ false =
                ground (arith, left, remaining, more) in
              rw open_rest known;
          waiting = refl;
        },
      )

  read_frame :
      (size : ℕ) (p rest : Bytes) (parts : List Bytes) (pc : PacketConn)
      → max_addr_len ≤ size
      → IsAddr addr
      → udp_addr addr ≡ some from
      → IsPart p
      → All IsPart parts
      → pc.remain ≡ 0
      → pc.conn.input ≡ packet_frame addr p ++ (framed addr parts ++ rest)
      → Gives addr from (p ++ joined parts) rest size (from_packet pc (read_packet size pc.conn))
  read_frame size p rest parts pc room valid parses part fit none_left waiting =
      let k = lesser (length p) size in
      let after_frame = framed addr parts ++ rest in
      let input : pc.conn ≡ record pc.conn { input = packet_frame addr p ++ after_frame } =
        ap (λ (x : Bytes). record pc.conn { input = x }) waiting in
      let got =
        ap (read_packet size) input
        ∙ read_packet-packet_frame addr from p after_frame size pc.conn valid parses part.1 room in
      let inside : k ≤ length p = lesser-le (length p) size in
      let bounded : k ≤ size = ground arith in
      let some_bytes : 0 < k = ground (arith, part.0, room) in
      let size_of_piece = length-take k p inside in
      let left = length-drop k p in
      let sum =
        ap (λ (x : Bytes). x ++ joined parts) (sym (take-append-drop k p))
        ∙ append_assoc (take k p) (drop k p) (joined parts) in
      let c : Conn = record pc.conn { input = drop k p ++ after_frame } in
      elim (Bool-cases (length p - k == 0)) [
        | inl whole ↦ (
          take k p,
          drop k p ++ joined parts,
          record pc { conn = c },
          rw (got, whole) refl,
          sum,
          omega (arith, size_of_piece, some_bytes),
          omega (arith, size_of_piece, bounded),
          record {
            head = drop k p;
            parts = parts;
            sum = refl;
            fit = fit;
            remaining = ground (arith, left, whole, none_left);
            known = λ more. absurd (ground (arith, left, whole, more));
            waiting = refl;
          },
        )
        | inr open_rest ↦ (
          take k p,
          drop k p ++ joined parts,
          record { conn = c; remain = length p - k; r_addr = some from },
          rw (got, open_rest) refl,
          sum,
          omega (arith, size_of_piece, some_bytes),
          omega (arith, size_of_piece, bounded),
          record {
            head = drop k p;
            parts = parts;
            sum = refl;
            fit = fit;
            remaining = sym left;
            known = λ more. refl;
            waiting = refl;
          },
        )
      ]

-- While the rest of a frame and further whole frames are to come, all with one and the same address,
-- which is an IPv4 or IPv6 address and a port (`udp_addr` gives it; with a domain name ReadFrom
-- fails), on a connection whose Read gives something where there is something, ReadFrom with a
-- buffer of 259 bytes or more has no error: it gives the next of their bytes, at least one and no
-- more than the buffer takes, with the address that they were sent to, and the others are to come.
pub read_from_lem :
    (portion : ℕ → Bytes → ℕ) (addr : Bytes) (from : UdpAddr) (size : ℕ) (pc : PacketConn)
    (todo rest : Bytes)
    → IsReader portion
    → IsAddr addr
    → udp_addr addr ≡ some from
    → max_addr_len ≤ size
    → 0 < length todo
    → IsPending addr from pc todo rest
    → Gives addr from todo rest size (read_from portion size pc)
unfolding read_from
read_from_lem portion addr from size pc todo rest reader valid parses room more h =
    by_head h.head h.parts h.sum h.fit h.remaining h.known h.waiting
  where
    by_head :
        (head : Bytes) (parts : List Bytes)
        → todo ≡ head ++ joined parts
        → All IsPart parts
        → pc.remain ≡ length head
        → (0 < length head → pc.r_addr ≡ some from)
        → pc.conn.input ≡ head ++ (framed addr parts ++ rest)
        → Gives addr from todo rest size (read_from portion size pc)
    by_head [] [] sum fit remaining known waiting = absurd (omega (arith, more, ap length sum))
    by_head [] (p ∷ parts) sum fit remaining known waiting =
        let empty : (pc.remain == 0) ≡ true = ground (arith, remaining) in
        rw (sum, empty)
          (read_frame portion reader addr from size p rest parts pc room valid parses fit.0 fit.1
            remaining (waiting ∙ append_assoc (packet_frame addr p) (framed addr parts) rest))
    by_head (b ∷ head) parts sum fit remaining known waiting =
        let some_left : (pc.remain == 0) ≡ false = ground (arith, remaining) in
        rw (sum, some_left)
          (read_head portion reader addr from size b head rest parts pc (omega (arith, room)) fit
            remaining (known (omega arith)) waiting)

-- A packet that is not empty is written to a connection with room for it, in parts of 8192 bytes
-- and a last one, each in a frame. A connection whose next bytes are those that were written has
-- the packet's bytes to come.
pub write_packet-IsPending :
    (addr p : Bytes) (from : UdpAddr) (c : Conn) (pc : PacketConn) (rest : Bytes)
    → 0 < length p
    → length (framed addr (parts_of p)) ≤ c.room
    → pc.remain ≡ 0
    → pc.conn.input ≡ framed addr (parts_of p) ++ rest
    → (n : ℕ) × (write_packet addr p c ≡ (
      ok n,
      record c {
        room = c.room - length (framed addr (parts_of p));
        sent = c.sent ++ framed addr (parts_of p);
      },
    ))
      × IsPending addr from pc p rest
write_packet-IsPending addr p from c pc rest some_bytes room none_left waiting =
    let (n, (sum, fit, says)) = write_packet-Written addr p some_bytes in
    (
      n,
      says c.input c room,
      record {
        head = [];
        parts = parts_of p;
        sum = sym sum;
        fit = fit;
        remaining = none_left;
        known = λ more. absurd (omega (arith, more));
        waiting = waiting;
      },
    )
