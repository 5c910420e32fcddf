-- ===== src/Trojan/Frames.antt =====
-- One frame of a packet, read into a buffer (transport/trojan/trojan.go).
use mathlib.Core.List.{append-nil, append_assoc}
use clash_for_android.Prelude.{
  ℕ, zero, suc, ◌-◌, ◌/◌, ◌%◌, ◌≡◌, ◌≤◌, ◌<◌, refl, sym, ap, ◌∙◌, false, [], ◌∷◌, ◌++◌, Bytes, ltb,
  length, take, drop, arith, length-take, take-append-drop, some, ok,
}
use clash_for_android.Server.Conn.{Conn}
use clash_for_android.Socks5.Session.{Session, Says, receive, receive-Says}
use clash_for_android.Socks5.Address.{read_addr, max_addr_len}
use clash_for_android.Socks5.Address.Udp.{IsAddr}
use clash_for_android.Socks5.Handshake.Steps.{read_addr-Says}
use clash_for_android.Trojan.{
  max_length, packet_frame, UdpAddr, udp_addr, be_word, TrojanError, or_fail, lesser, read_packet,
}
use clash_for_android.Trojan.Writing.{max_length-bounds}

read_addr-size : (size : ℕ) → max_addr_len ≤ size → read_addr size ≡ read_addr max_addr_len
unfolding read_addr
read_addr-size size h = let room : ltb size max_addr_len ≡ false = ground arith in rw room refl

-- A part of the other protocol that succeeds.
or_fail-Says :
    {A : Type 0} (e : TrojanError) (m : Session A) (reads : Bytes) (a : A) (rest : Bytes) (c : Conn)
    → Says m reads [] a
    → or_fail e m (record c { input = reads ++ rest }) ≡ (ok a, record c { input = rest })
or_fail-Says e m reads a rest c h =
    let same_room : c.room - 0 ≡ c.room = omega arith in
    rw (h rest c (omega arith)) (rw (same_room, append-nil c.sent) refl)

be_word-length : (n : ℕ) → n < 65536 → be_word (n / 256 % 256 ∷ n % 256 ∷ []) ≡ n
be_word-length n h = omega arith

packet_frame-append :
    (addr p rest : Bytes)
    → packet_frame addr p ++ rest
      ≡ addr ++ ((length p / 256 % 256 ∷ length p % 256 ∷ []) ++ ((13 ∷ 10 ∷ []) ++ (p ++ rest)))
packet_frame-append addr p rest =
    append_assoc addr ((length p / 256 % 256 ∷ length p % 256 ∷ []) ++ ((13 ∷ 10 ∷ []) ++ p)) rest

pub lesser-le : (n limit : ℕ) → lesser n limit ≤ n
lesser-le n limit = ground arith

-- A frame is read up to what fits the buffer.
pub read_packet-packet_frame :
    (addr : Bytes) (from : UdpAddr) (p rest : Bytes) (size : ℕ) (c : Conn)
    → IsAddr addr
    → udp_addr addr ≡ some from
    → length p ≤ max_length
    → max_addr_len ≤ size
    → read_packet size (record c { input = packet_frame addr p ++ rest }) ≡ (
      ok (record {
        addr = from;
        payload = take (lesser (length p) size) p;
        remain = length p - lesser (length p) size;
      }),
      record c { input = drop (lesser (length p) size) p ++ rest },
    )
unfolding read_packet
read_packet-packet_frame addr from p rest size c valid parses fit room =
    let k = lesser (length p) size in
    let size_bytes = length p / 256 % 256 ∷ length p % 256 ∷ [] in
    let after_size = (13 ∷ 10 ∷ []) ++ (p ++ rest) in
    let after_line = p ++ rest in
    let cut : take k p ++ (drop k p ++ rest) ≡ p ++ rest =
      sym (append_assoc (take k p) (drop k p) rest)
      ∙ ap (λ (x : Bytes). x ++ rest) (take-append-drop k p) in
    let total : be_word size_bytes ≡ length p =
      be_word-length (length p) (omega (arith, max_length-bounds)) in
    let small : ltb max_length (length p) ≡ false = ground arith in
    rw
      (
        packet_frame-append addr p rest,
        read_addr-size size room,
        or_fail-Says TrojanError.read_addr_error (read_addr max_addr_len) addr addr
            (size_bytes ++ after_size) c (read_addr-Says addr valid),
        parses,
        or_fail-Says TrojanError.read_length_error (receive 2) size_bytes size_bytes after_size c
            (receive-Says 2 size_bytes refl),
        total,
        small,
        or_fail-Says TrojanError.read_crlf_error (receive 2) (13 ∷ 10 ∷ []) (13 ∷ 10 ∷ [])
            after_line c (receive-Says 2 (13 ∷ 10 ∷ []) refl),
        ← cut,
        or_fail-Says TrojanError.read_packet_error (receive k) (take k p) (take k p)
            (drop k p ++ rest) c
            (receive-Says k (take k p) (length-take k p (lesser-le (length p) size))),
      )
      refl

pub take-append-le : (n : ℕ) (xs ys : Bytes) → n ≤ length xs → take n (xs ++ ys) ≡ take n xs
take-append-le zero xs ys h = refl
take-append-le (suc n) [] ys h = absurd (omega arith)
take-append-le (suc n) (x ∷ xs) ys h = ap (◌∷◌ x) (take-append-le n xs ys (omega arith))

pub drop-append-le : (n : ℕ) (xs ys : Bytes) → n ≤ length xs → drop n (xs ++ ys) ≡ drop n xs ++ ys
drop-append-le zero xs ys h = refl
drop-append-le (suc n) [] ys h = absurd (omega arith)
drop-append-le (suc n) (x ∷ xs) ys h = drop-append-le n xs ys (omega arith)
