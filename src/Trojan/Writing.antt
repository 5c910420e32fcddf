-- ===== src/Trojan/Writing.antt =====
-- What a packet that is written leaves on the stream (transport/trojan/trojan.go).
use mathlib.Core.List.{append-nil}
use clash_for_android.Prelude.{
  ℕ, zero, suc, ◌-◌, ◌≡◌, ◌≤◌, ◌<◌, refl, sym, ap, ◌∙◌, List, [], ◌∷◌, ◌++◌, Bytes, leb, length,
  take, drop, All, arith, subst, length-take-le, take-append-drop, leb→le, Bool-cases, inl, inr,
}
use clash_for_android.Socks5.Session.{Session, Says, give-Says, transmit-Says, >>=-Says}
use clash_for_android.Socks5.Handshake.Steps.{cast-Says}
use clash_for_android.Trojan.{
  max_length, packet_frame, write_one, write_rest, write_pieces, write_packet,
}

abbrev pub joined : List Bytes → Bytes
joined [] = []
joined (p ∷ ps) = p ++ joined ps

-- The frames of some parts, one after the other.
abbrev pub framed : Bytes → List Bytes → Bytes
framed addr [] = []
framed addr (p ∷ ps) = packet_frame addr p ++ framed addr ps

-- A part of a packet fits a frame and is not empty.
abbrev pub IsPart : Bytes → Type 0
IsPart p = (0 < length p) × (length p ≤ max_length)

-- The bytes cut into parts of the largest size and a last one.
abbrev pub parts_from : ℕ → Bytes → List Bytes
parts_from zero bytes = []
parts_from (suc fuel) [] = []
parts_from (suc fuel) (b ∷ bytes) =
    take max_length (b ∷ bytes) ∷ parts_from fuel (drop max_length (b ∷ bytes))

abbrev pub parts_of : Bytes → List Bytes
parts_of bytes = parts_from (length bytes) bytes

-- What is written of some bytes, in parts.
abbrev pub Written : Session ℕ → Bytes → List Bytes → Bytes → ℕ → Type 0
Written m addr parts bytes n =
    (joined parts ≡ bytes) × All IsPart parts × Says m [] (framed addr parts) n

write_one-Says :
    (addr p : Bytes)
    → Says (write_one addr p) [] (framed addr (p ∷ [])) (length (packet_frame addr p))
write_one-Says addr p =
    cast-Says (write_one addr p) [] [] (packet_frame addr p) (framed addr (p ∷ []))
      (length (packet_frame addr p)) refl (sym (append-nil (packet_frame addr p)))
      (transmit-Says (packet_frame addr p))

pub max_length-bounds : (0 < max_length) × (max_length < 65536)
unfolding max_length
max_length-bounds = omega arith

pub length-take_positive : (n b : ℕ) (bytes : Bytes) → 0 < n → 0 < length (take n (b ∷ bytes))
length-take_positive zero b bytes h = absurd (omega arith)
length-take_positive (suc n) b bytes h = omega arith

pub length-drop : (n : ℕ) (bytes : Bytes) → length (drop n bytes) ≡ length bytes - n
length-drop zero bytes = omega arith
length-drop (suc n) [] = omega arith
length-drop (suc n) (b ∷ bytes) = omega (arith, length-drop n bytes)

take-IsPart : (b : ℕ) (bytes : Bytes) → IsPart (take max_length (b ∷ bytes))
take-IsPart b bytes = (
  length-take_positive max_length b bytes max_length-bounds.0,
  length-take-le max_length (b ∷ bytes),
)

parts_from-nil : (fuel : ℕ) → parts_from fuel [] ≡ []
parts_from-nil zero = refl
parts_from-nil (suc fuel) = refl

write_rest-Written :
    (fuel total : ℕ) (addr : Bytes) (next : Bytes → Session ℕ)
    → ((c : ℕ) (cs : Bytes)
        → length (c ∷ cs) ≤ fuel
        → Written (next (c ∷ cs)) addr (parts_from fuel (c ∷ cs)) (c ∷ cs) total)
    → (left : Bytes) → length left ≤ fuel
    → Written (write_rest next total left) addr (parts_from fuel left) left total
write_rest-Written fuel total addr next h [] k =
    rw (parts_from-nil fuel) (refl, tt, give-Says total)
write_rest-Written fuel total addr next h (c ∷ cs) k = h c cs k

-- Enough turns are given: each of them takes a byte at least.
write_pieces-Written :
    (fuel total : ℕ) (addr : Bytes) (b : ℕ) (bytes : Bytes)
    → length (b ∷ bytes) ≤ fuel
    → Written
        (write_pieces fuel total addr (b ∷ bytes))
        addr
        (parts_from fuel (b ∷ bytes))
        (b ∷ bytes)
        total
write_pieces-Written zero total addr b bytes h = absurd (omega arith)
write_pieces-Written (suc fuel) total addr b bytes h =
    let now = take max_length (b ∷ bytes) in
    let next = drop max_length (b ∷ bytes) in
    let left = length-drop max_length (b ∷ bytes) in
    let (sum, fit, says) =
      write_rest-Written fuel total addr (write_pieces fuel total addr)
        (λ c cs k. write_pieces-Written fuel total addr c cs k) next
        (omega (arith, left, max_length-bounds)) in
    (
      ap (λ (x : Bytes). now ++ x) sum ∙ take-append-drop max_length (b ∷ bytes),
      (take-IsPart b bytes, fit),
      >>=-Says (write_one addr now) _ [] (packet_frame addr now) []
          (framed addr (parts_from fuel next)) (length (packet_frame addr now)) total
          (transmit-Says (packet_frame addr now)) says,
    )

take-whole :
    (n : ℕ) (bytes : Bytes) → length bytes ≤ n → (take n bytes ≡ bytes) × (drop n bytes ≡ [])
take-whole zero [] h = (refl, refl)
take-whole zero (b ∷ bytes) h = absurd (omega arith)
take-whole (suc n) [] h = (refl, refl)
take-whole (suc n) (b ∷ bytes) h = let t = take-whole n bytes (omega arith) in (ap (◌∷◌ b) t.0, t.1)

parts_of-small :
    (b : ℕ) (bytes : Bytes)
    → length (b ∷ bytes) ≤ max_length
    → parts_of (b ∷ bytes) ≡ (b ∷ bytes) ∷ []
parts_of-small b bytes h =
    let t = take-whole max_length (b ∷ bytes) h in
    rw (t.0, t.1) (ap (◌∷◌ (b ∷ bytes)) (parts_from-nil (length bytes)))

pub write_packet-Written :
    (addr p : Bytes) → 0 < length p → (n : ℕ) × Written (write_packet addr p) addr (parts_of p) p n
unfolding write_packet
write_packet-Written addr [] some_bytes = absurd (omega arith)
write_packet-Written addr (b ∷ bytes) some_bytes =
    elim (Bool-cases (leb (length (b ∷ bytes)) max_length)) [
      | inl small ↦
          let fits = leb→le (length (b ∷ bytes)) max_length small in
          let n = length (packet_frame addr (b ∷ bytes)) in
          (
            n,
            rw small (
                subst
                  (λ (ps : List Bytes). Written (write_one addr (b ∷ bytes)) addr ps (b ∷ bytes) n)
                  (sym (parts_of-small b bytes fits))
                  (
                    append-nil (b ∷ bytes),
                    ((some_bytes, fits), tt),
                    write_one-Says addr (b ∷ bytes),
                  )),
          )
      | inr large ↦ (
        length (b ∷ bytes),
        rw large (
            write_pieces-Written (length (b ∷ bytes)) (length (b ∷ bytes)) addr b bytes
              (omega arith)),
      )
    ]
