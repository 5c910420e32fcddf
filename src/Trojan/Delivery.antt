-- ===== src/Trojan/Delivery.antt =====
-- A packet written to the stream, and read back whole (transport/trojan/trojan.go).

use clash_for_android.Prelude.{
  ℕ, zero, suc, ◌+◌, ◌-◌, ◌≡◌, ◌≤◌, ◌<◌, refl, sym, ap, ◌∙◌, List, [], ◌∷◌, ◌++◌, map, Bytes,
  length, length-append, All, arith, Option, some, Result, ok, err,
}
use clash_for_android.Server.Conn.{Conn}
use clash_for_android.Socks5.Address.{max_addr_len}
use clash_for_android.Socks5.Address.Udp.{IsAddr}
use clash_for_android.Trojan.{
  write_packet, UdpAddr, udp_addr, TrojanError, PacketConn, Received, read_from,
}
use clash_for_android.Trojan.Writing.{joined, framed, parts_of, IsPart}
use clash_for_android.Trojan.Reading.{IsPending, IsReader, read_from_lem, write_packet-IsPending}

-- What a number of calls of ReadFrom gives.
abbrev pub Reads : Type 0
Reads = Result TrojanError (List (Bytes × Option UdpAddr) × PacketConn)

abbrev also_read : Bytes × Option UdpAddr → Reads → Reads
also_read piece (err e) = err e
also_read piece (ok (pieces, pc)) = ok (piece ∷ pieces, pc)

abbrev and_read : Received → (PacketConn → Reads) → Reads
and_read (err e, pc) next = err e
and_read (ok piece, pc) next = also_read piece (next pc)

abbrev pub read_times : (ℕ → Bytes → ℕ) → ℕ → ℕ → PacketConn → Reads
read_times portion size zero pc = ok ([], pc)
read_times portion size (suc k) pc =
    and_read (read_from portion size pc) (read_times portion size k)

abbrev pub sent_to : UdpAddr → Bytes → Bytes × Option UdpAddr
sent_to from piece = (piece, some from)

module _ (portion : ℕ → Bytes → ℕ) (addr : Bytes) (from : UdpAddr) (size : ℕ) (rest : Bytes)
    (reader : IsReader portion) (valid : IsAddr addr) (parses : udp_addr addr ≡ some from)
    (room : max_addr_len ≤ size) where
  -- The calls that give all of some bytes.
  abbrev Delivers : Bytes → PacketConn → Type 0
  Delivers todo pc =
      (k : ℕ) × (pieces : List Bytes) × (after : PacketConn) × (k ≤ length todo)
      × (read_times portion size k pc ≡ ok (map (sent_to from) pieces, after))
      × (joined pieces ≡ todo)
      × (after.remain ≡ 0)
      × (after.conn.input ≡ rest)

  nothing_left :
      (pc : PacketConn) → IsPending addr from pc [] rest → (pc.remain ≡ 0) × (pc.conn.input ≡ rest)
  nothing_left pc h = by_head h.head h.parts h.sum h.fit h.remaining h.waiting
    where
      by_head :
          (head : Bytes) (parts : List Bytes)
          → [] ≡ head ++ joined parts
          → All IsPart parts
          → pc.remain ≡ length head
          → pc.conn.input ≡ head ++ (framed addr parts ++ rest)
          → (pc.remain ≡ 0) × (pc.conn.input ≡ rest)
      by_head [] [] sum fit remaining waiting = (remaining, waiting)
      by_head [] (p ∷ parts) sum fit remaining waiting =
          absurd (omega (arith, ap length sum, length-append p (joined parts), fit.0.0))
      by_head (b ∷ head) parts sum fit remaining waiting = absurd (omega (arith, ap length sum))

  delivers :
      (fuel : ℕ) (todo : Bytes) (pc : PacketConn)
      → length todo ≤ fuel
      → IsPending addr from pc todo rest
      → Delivers todo pc
  delivers fuel [] pc h pending =
      let (none_left, read) = nothing_left pc pending in
      (0, [], pc, omega arith, refl, refl, none_left, read)
  delivers zero (b ∷ todo) pc h pending = absurd (omega arith)
  delivers (suc fuel) (b ∷ todo) pc h pending =
      let (piece, left, next, got, split, some_bytes, bounded, more) =
        read_from_lem portion addr from size pc (b ∷ todo) rest reader valid parses room
          (omega arith) pending in
      let shorter : length (b ∷ todo) ≡ length piece + length left =
        ap length split ∙ length-append piece left in
      let (k, pieces, after, calls, reads, sum, none_left, read) =
        delivers fuel left next (omega (arith, shorter, some_bytes)) more in
      (
        suc k,
        piece ∷ pieces,
        after,
        omega (arith, shorter, some_bytes, calls),
        rw (got, reads) refl,
        ap (λ (x : Bytes). piece ++ x) sum ∙ sym split,
        none_left,
        read,
      )

-- A packet that is not empty, of whatever length, is written, to an address that is an IPv4 or IPv6
-- address and a port (`udp_addr` gives it; a domain name's packets are refused when read), to a
-- connection with room for its frames. Where a connection has those bytes to read, with no rest of
-- an earlier packet, some calls of ReadFrom, no more than the packet has bytes, with a buffer of
-- 259 bytes or more, give the packet in pieces, each with the address that it was sent to, and leave
-- what comes after it.
pub read_times-write_packet :
    (portion : ℕ → Bytes → ℕ) (addr : Bytes) (from : UdpAddr) (size : ℕ) (p rest : Bytes) (c : Conn)
    (pc : PacketConn)
    → IsReader portion
    → IsAddr addr
    → udp_addr addr ≡ some from
    → max_addr_len ≤ size
    → 0 < length p
    → length (framed addr (parts_of p)) ≤ c.room
    → pc.remain ≡ 0
    → pc.conn.input ≡ framed addr (parts_of p) ++ rest
    → (n k : ℕ) × (pieces : List Bytes) × (after : PacketConn) × (write_packet addr p c ≡ (
      ok n,
      record c {
        room = c.room - length (framed addr (parts_of p));
        sent = c.sent ++ framed addr (parts_of p);
      },
    ))
      × (k ≤ length p)
      × (read_times portion size k pc ≡ ok (map (sent_to from) pieces, after))
      × (joined pieces ≡ p)
      × (after.remain ≡ 0)
      × (after.conn.input ≡ rest)
read_times-write_packet portion addr from size p rest c pc reader valid parses enough some_bytes
      room none_left waiting =
    let (n, written, pending) =
      write_packet-IsPending addr p from c pc rest some_bytes room none_left waiting in
    let (k, pieces, after, calls, reads, sum, done, left) =
      delivers portion addr from size rest reader valid parses enough (length p) p pc (omega arith)
        pending in
    (n, k, pieces, after, written, calls, reads, sum, done, left)
