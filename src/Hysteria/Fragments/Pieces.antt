-- ===== src/Hysteria/Fragments/Pieces.antt =====
-- The pieces that a message is cut into (transport/hysteria/core/frag.go).
use mathlib.Core.List.{append-nil}
use native.Mathlib.Nat.{div-eq-sub-div, div-eq_of_lt, mod-eq_of_lt}
use clash_for_android.Prelude.{
  ℕ, zero, suc, ◌+◌, ◌-◌, ◌/◌, ◌%◌, ◌≤◌, ◌<◌, ◌≡◌, refl, sym, ap, ◌∙◌, false, some, List, [], ◌∷◌,
  ◌++◌, Bytes, leb, length, take, drop, All, arith, take-append-drop, length-take-le, leb→le,
  lt→ltb, subst, Bool-cases, inl, inr,
}
use clash_for_android.Hysteria.UdpMessage.{UdpMessage, header_size, udp_size}
use clash_for_android.Hysteria.Fragments.{cut_data, count_of, frag_udp_message}
use clash_for_android.Hysteria.Fragments.Arrivals.{numbered, joined}

-- The data of the fragments.
abbrev chunks : ℕ → ℕ → Bytes → List Bytes
chunks zero width bytes = []
chunks (suc fuel) width [] = []
chunks (suc fuel) width (b ∷ bytes) =
    take width (b ∷ bytes) ∷ chunks fuel width (drop width (b ∷ bytes))

length-drop {ℓ} : {A : Type ℓ} (n : ℕ) (xs : List A) → length (drop n xs) ≡ length xs - n
length-drop zero xs = omega arith
length-drop (suc n) [] = omega arith
length-drop (suc n) (x ∷ xs) = omega (arith, length-drop n xs)

joined-chunks :
    (fuel width : ℕ) (bytes : Bytes)
    → 0 < width
    → length bytes ≤ fuel
    → joined (chunks fuel width bytes) ≡ bytes
joined-chunks zero width [] w h = refl
joined-chunks zero width (b ∷ bytes) w h = absurd (omega arith)
joined-chunks (suc fuel) width [] w h = refl
joined-chunks (suc fuel) width (b ∷ bytes) w h =
    let left = length-drop width (b ∷ bytes) in
    rw (joined-chunks fuel width (drop width (b ∷ bytes)) w (omega arith))
      (take-append-drop width (b ∷ bytes))

ceil-step : (n w : ℕ) → 0 < w → 0 < n → (n + w - 1) / w ≡ suc ((n - w + w - 1) / w)
ceil-step n w positive some_left = elim (Bool-cases (leb n w)) [
  | inl last ↦
      let left : n + w - 1 - w ≡ n - 1 = omega arith in
      let none_left : n - w + w - 1 ≡ w - 1 = ground arith in
      div-eq-sub-div positive (omega arith)
      ∙ rw
          (
            left,
            none_left,
            div-eq_of_lt {n = n - 1} {m = w} (ground arith),
            div-eq_of_lt {n = w - 1} {m = w} (omega arith),
          )
          refl
  | inr more ↦
      let left : n + w - 1 - w ≡ n - w + w - 1 = ground arith in
      div-eq-sub-div positive (omega arith) ∙ rw left (omega arith)
]

length-chunks :
    (fuel width : ℕ) (bytes : Bytes)
    → 0 < width
    → length bytes ≤ fuel
    → length (chunks fuel width bytes) ≡ (length bytes + width - 1) / width
length-chunks zero width [] w h = sym (div-eq_of_lt {n = 0 + width - 1} {m = width} (omega arith))
length-chunks zero width (b ∷ bytes) w h = absurd (omega arith)
length-chunks (suc fuel) width [] w h =
    sym (div-eq_of_lt {n = 0 + width - 1} {m = width} (omega arith))
length-chunks (suc fuel) width (b ∷ bytes) w h =
    let left = length-drop width (b ∷ bytes) in
    rw (length-chunks fuel width (drop width (b ∷ bytes)) w (omega arith), left)
      (sym (ceil-step (length (b ∷ bytes)) width w (omega arith)))

cut_data-numbered :
    (fuel : ℕ) (m : UdpMessage) (width n i : ℕ) (bytes : Bytes)
    → i + length (chunks fuel width bytes) < 256
    → cut_data fuel m width n i bytes ≡ numbered m n i (chunks fuel width bytes)
cut_data-numbered zero m width n i bytes h = refl
cut_data-numbered (suc fuel) m width n i [] h = refl
cut_data-numbered (suc fuel) m width n i (b ∷ bytes) h =
    let next : (i + 1) % 256 ≡ i + 1 = omega arith in
    rw (next, cut_data-numbered fuel m width n (i + 1) (drop width (b ∷ bytes)) (omega arith)) refl

-- A message of at most so many bytes; the data of some messages.
abbrev pub Fits : ℕ → UdpMessage → Type 0
Fits max_size f = udp_size f ≤ max_size

abbrev pub payloads : List UdpMessage → Bytes
payloads [] = []
payloads (f ∷ fs) = f.payload ++ payloads fs

cut_data-Fits :
    (fuel : ℕ) (m : UdpMessage) (width n i : ℕ) (bytes : Bytes)
    → All (Fits (header_size m + width)) (cut_data fuel m width n i bytes)
cut_data-Fits zero m width n i bytes = tt
cut_data-Fits (suc fuel) m width n i [] = tt
cut_data-Fits (suc fuel) m width n i (b ∷ bytes) = (
  omega (arith, length-take-le width (b ∷ bytes)),
  cut_data-Fits fuel m width n ((i + 1) % 256) (drop width (b ∷ bytes)),
)

payloads-cut_data :
    (fuel : ℕ) (m : UdpMessage) (width n i : ℕ) (bytes : Bytes)
    → 0 < width
    → length bytes ≤ fuel
    → payloads (cut_data fuel m width n i bytes) ≡ bytes
payloads-cut_data zero m width n i [] w h = refl
payloads-cut_data zero m width n i (b ∷ bytes) w h = absurd (omega arith)
payloads-cut_data (suc fuel) m width n i [] w h = refl
payloads-cut_data (suc fuel) m width n i (b ∷ bytes) w h =
    let left = length-drop width (b ∷ bytes) in
    rw (payloads-cut_data fuel m width n ((i + 1) % 256) (drop width (b ∷ bytes)) w (omega arith))
      (take-append-drop width (b ∷ bytes))

-- Where a message has room for data beside its header, it is sent, whole or cut: what is sent fits
-- the size that is asked for, and its data in order is the data of the message, however many
-- pieces there are.
pub frag_udp_message-Fits :
    (m : UdpMessage) (max_size : ℕ)
    → header_size m < max_size
    → (fs : List UdpMessage) × (frag_udp_message m max_size ≡ some fs)
      × All (Fits max_size) fs
      × (payloads fs ≡ m.payload)
unfolding frag_udp_message
frag_udp_message-Fits m max_size room = elim (Bool-cases (leb (udp_size m) max_size)) [
  | inl small ↦
      (m ∷ [], rw small refl, (leb→le (udp_size m) max_size small, tt), append-nil m.payload)
  | inr large ↦
      let width = max_size - header_size m in
      let fs =
        cut_data (length m.payload) m width (count_of width (length m.payload)) 0 m.payload in
      let size : header_size m + width ≡ max_size = omega arith in
      (
        fs,
        rw (large, lt→ltb (header_size m) max_size room) refl,
        subst (λ n. All (Fits n) fs) size
            (cut_data-Fits (length m.payload) m width (count_of width (length m.payload)) 0
              m.payload),
        payloads-cut_data (length m.payload) m width (count_of width (length m.payload)) 0 m.payload
            (omega arith) (omega arith),
      )
]

-- A message that is too large is cut into numbered pieces, as many as the byte that counts them says.
pub frag_udp_message-numbered :
    (m : UdpMessage) (max_size : ℕ)
    → header_size m < max_size
    → max_size < udp_size m
    → (length m.payload + (max_size - header_size m) - 1) / (max_size - header_size m) < 256
    → (ps : List Bytes) × (frag_udp_message m max_size ≡ some (numbered m (length ps) 0 ps))
      × (joined ps ≡ m.payload)
      × (length ps
          ≡ (length m.payload + (max_size - header_size m) - 1) / (max_size - header_size m))
unfolding frag_udp_message
frag_udp_message-numbered m max_size room large few =
    let width = max_size - header_size m in
    let ps = chunks (length m.payload) width m.payload in
    let count = length-chunks (length m.payload) width m.payload (omega arith) (omega arith) in
    let not_small : leb (udp_size m) max_size ≡ false = ground arith in
    let byte : count_of width (length m.payload) ≡ length ps = mod-eq_of_lt few ∙ sym count in
    (
      ps,
      rw (not_small, lt→ltb (header_size m) max_size room, byte)
          (ap some
            (cut_data-numbered (length m.payload) m width (length ps) 0 m.payload (omega arith))),
      joined-chunks (length m.payload) width m.payload (omega arith) (omega arith),
      count,
    )
