-- ===== src/Socks5/Address/Udp.antt =====
-- The packets of SOCKS5 over UDP: encoding and decoding are inverse (transport/socks5/socks5.go).
use mathlib.Core.Option.{some-injective}
use clash_for_android.Prelude.{
  ℕ, ◌≤◌, ◌≡◌, ◌↔◌, refl, sym, ◌∙◌, ap, false, [], ◌∷◌, ◌++◌, Bytes, Option, none, some, ltb, ◌==◌,
  length, take, drop, bytes_eq, bytes_eq_iff, arith, length-append, length-take, none-ne-some,
  take-append, drop-append, take-append-drop, Bool-cases, Option-cases, inl, inr,
}
use clash_for_android.Socks5.Address.{
  addr_len, take_addr, split_addr, Decoded, decode_header, decode_udp_packet, encode_udp_packet,
  refused, UdpError, insufficient_length, reserved, fragmented,
}

-- The bytes are one address, with nothing after it.
abbrev pub IsAddr : Bytes → Type 0
IsAddr a = split_addr a ≡ some a

take_addr-some :
    (b a : Bytes) (o : Option ℕ)
    → take_addr b o ≡ some a
    → (n : ℕ) × (o ≡ some n) × (n ≤ length b) × (take n b ≡ a)
take_addr-some b a none e = cc
take_addr-some b a (some n) e = elim (Bool-cases (ltb (length b) n)) [
  | inl short ↦ absurd (none-ne-some refl (rw short at e))
  | inr long ↦ (n, refl, ground arith, some-injective _ _ (rw long at e))
]

-- The length is what the address says of itself.
pub addr_len-IsAddr : (a : Bytes) → IsAddr a → addr_len a ≡ some (length a)
unfolding split_addr
addr_len-IsAddr a h =
    let (n, e, le, t) = take_addr-some a a (addr_len a) h in
    e ∙ ap some (sym (length-take n a le) ∙ ap length t)

addr_len-append : (a rest : Bytes) (n : ℕ) → addr_len a ≡ some n → addr_len (a ++ rest) ≡ some n
addr_len-append [] rest n e = cc
addr_len-append (aty ∷ []) rest n e = ground arith
addr_len-append (aty ∷ b ∷ bs) rest n e = ground (arith, length-append bs rest)

pub split_addr-append : (a rest : Bytes) → IsAddr a → split_addr (a ++ rest) ≡ some a
unfolding split_addr
split_addr-append a rest h =
    let n = addr_len-append a rest (length a) (addr_len-IsAddr a h) in
    rw n (ground (arith, length-append a rest, take-append a rest))

-- An address has at least its type, a length and a port.
pub IsAddr-length : (a : Bytes) → IsAddr a → 4 ≤ length a
IsAddr-length [] h = absurd (none-ne-some refl (addr_len-IsAddr [] h))
IsAddr-length (aty ∷ bs) h = ground (arith, addr_len-IsAddr (aty ∷ bs) h)

decode-packet :
    (a payload : Bytes)
    → IsAddr a
    → decode_udp_packet (0 ∷ 0 ∷ 0 ∷ (a ++ payload))
      ≡ record { addr = some a; payload = payload; error = none }
unfolding decode_udp_packet
decode-packet a payload h =
    let room : ltb (length (0 ∷ 0 ∷ 0 ∷ (a ++ payload))) 5 ≡ false =
      ground (arith, length-append a payload, IsAddr-length a h) in
    rw (room, split_addr-append a payload h) (rw (drop-append a payload))

split_addr-drop : (b a : Bytes) → split_addr b ≡ some a → a ++ drop (length a) b ≡ b
unfolding split_addr
split_addr-drop b a h =
    let (n, e, le, t) = take_addr-some b a (addr_len b) h in
    let size : length a ≡ n = ap length (sym t) ∙ length-take n b le in
    rw size (ap (λ (x : Bytes). x ++ drop n b) (sym t) ∙ take-append-drop n b)

header-packet :
    (rest a payload : Bytes)
    → decode_header rest (split_addr rest)
      ≡ record { addr = some a; payload = payload; error = none }
    → rest ≡ a ++ payload
header-packet rest a payload e = elim (Option-cases (split_addr rest)) [
  | inl none_there ↦ absurd (none-ne-some refl (ap (λ (d : Decoded). d.addr) (rw none_there at e)))
  | inr (b, there) ↦
      let same : b ≡ a = some-injective _ _ (ap (λ (d : Decoded). d.addr) (rw there at e)) in
      let left : drop (length b) rest ≡ payload = ap (λ (d : Decoded). d.payload) (rw there at e) in
      sym (split_addr-drop rest b there) ∙ rw (left, same)
]

no_address :
    {A : Type 0} (e : UdpError) (a payload : Bytes)
    → refused e ≡ record { addr = some a; payload = payload; error = none }
    → A
no_address e a payload h = absurd (none-ne-some refl (ap (λ (d : Decoded). d.addr) h))

packet-decode :
    (packet a payload : Bytes)
    → decode_udp_packet packet ≡ record { addr = some a; payload = payload; error = none }
    → (0 ∷ 0 ∷ 0 ∷ (a ++ payload)) ≡ packet
unfolding decode_udp_packet
packet-decode [] a payload e = absurd (none-ne-some refl (ap (λ (d : Decoded). d.addr) e))
packet-decode (x ∷ []) a payload e = absurd (none-ne-some refl (ap (λ (d : Decoded). d.addr) e))
packet-decode (x ∷ y ∷ []) a payload e = absurd (none-ne-some refl (ap (λ (d : Decoded). d.addr) e))
packet-decode (x ∷ y ∷ z ∷ rest) a payload e =
    elim (Bool-cases (ltb (length (x ∷ y ∷ z ∷ rest)) 5)) [
      | inl short ↦ no_address insufficient_length a payload (rw short at e)
      | inr long ↦ elim (Bool-cases (bytes_eq (x ∷ y ∷ []) (0 ∷ 0 ∷ []))) [
        | inr nonzero ↦ no_address reserved a payload (rw (long, nonzero) at e)
        | inl zeros ↦ elim (Bool-cases (z == 0)) [
          | inr piece ↦ no_address fragmented a payload (rw (long, zeros, piece) at e)
          | inl whole ↦
              let two = (bytes_eq_iff (x ∷ y ∷ []) (0 ∷ 0 ∷ [])).0 zeros in
              let one : z ≡ 0 = ground arith in
              let tail = header-packet rest a payload (rw (long, zeros, whole) at e) in
              rw (← tail, one) (ap (λ (h : Bytes). h ++ 0 ∷ rest) (sym two))
        ]
      ]
    ]

-- For an address, encoding it with a payload gives a packet exactly if decoding the packet gives
-- the address and the payload without an error.
pub encode_iff_decode :
    (a payload packet : Bytes)
    → IsAddr a
    → (encode_udp_packet (some a) payload ≡ some packet)
      ↔ (decode_udp_packet packet ≡ record { addr = some a; payload = payload; error = none })
unfolding encode_udp_packet
encode_iff_decode a payload packet h = (
  (λ e. ap decode_udp_packet (sym (some-injective _ _ e)) ∙ decode-packet a payload h),
  (λ e. ap some (packet-decode packet a payload e)),
)
