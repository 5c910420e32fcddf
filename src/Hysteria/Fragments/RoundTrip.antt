-- ===== src/Hysteria/Fragments/RoundTrip.antt =====
-- A message cut, sent in pieces and put together (transport/hysteria/core/frag.go).
use native.Mathlib.Nat.{div-eq-sub-div}
use clash_for_android.Prelude.{
  ℕ, ◌+◌, ◌-◌, ◌/◌, ◌<◌, ◌≡◌, ◌≢◌, sym, ap, ◌∙◌, some, List, [], ◌∷◌, Bytes, if◌then◌else◌, length,
  All, arith, subst,
}
use clash_for_android.Hysteria.UdpMessage.{UdpMessage, header_size, udp_size}
use clash_for_android.Hysteria.Fragments.{Defragger, frag_udp_message, feed_all}
use clash_for_android.Hysteria.Fragments.Arrivals.{numbered, length-numbered}
use clash_for_android.Hysteria.Fragments.Pieces.{frag_udp_message-numbered}
use clash_for_android.Hysteria.Fragments.Feeding.{whole}
use clash_for_android.Hysteria.Fragments.Reassembly.{picked, Below, all_arrived, feed_all-picked}

abbrev pub pieces_needed : UdpMessage → ℕ → ℕ
pieces_needed m max_size =
    (length m.payload + (max_size - header_size m) - 1) / (max_size - header_size m)

pieces_needed-several :
    (m : UdpMessage) (max_size : ℕ)
    → header_size m < max_size
    → max_size < udp_size m
    → 1 < pieces_needed m max_size
pieces_needed-several m max_size room large =
    let width = max_size - header_size m in
    let one =
      div-eq-sub-div {m = width} {n = length m.payload + width - 1} (omega arith) (omega arith) in
    let two =
      div-eq-sub-div {m = width} {n = length m.payload + width - 1 - width} (omega arith)
        (omega arith) in
    omega (arith, one, two)

-- A message that is larger than the size that is asked for, needs at most 255 pieces and has room
-- for data beside its header, is cut into so many pieces. They may arrive in any order, some
-- several times and some not at all, at a defragger that last saw another message: with no panic
-- the message comes out, once and in one piece, if every piece arrived, and nothing comes out if
-- one did not.
pub feed_all-frag_udp_message :
    (m : UdpMessage) (max_size : ℕ) (ks : List ℕ) (d : Defragger)
    → header_size m < max_size
    → max_size < udp_size m
    → pieces_needed m max_size < 256
    → m.msg_id ≢ d.last_id
    → All (Below (pieces_needed m max_size)) ks
    → (fs : List UdpMessage) × (after : Defragger) × (frag_udp_message m max_size ≡ some fs)
      × (length fs ≡ pieces_needed m max_size)
      × (feed_all (picked fs ks) d
          ≡ some (
            if all_arrived (length fs) 0 ks
                then record m { frag_id = 0; frag_count = 1 } ∷ []
                else [],
            after,
          ))
feed_all-frag_udp_message m max_size ks d room large few other below_n =
    let cut = frag_udp_message-numbered m max_size room large few in
    let ps = cut.0 in
    let count : length ps ≡ pieces_needed m max_size = cut.3 in
    let several : 1 < length ps =
      subst (λ n. 1 < n) (sym count) (pieces_needed-several m max_size room large) in
    let all_below : All (Below (length ps)) ks =
      subst (λ n. All (Below n) ks) (sym count) below_n in
    let got = feed_all-picked m ps several (omega arith) ks d other all_below in
    let size : length (numbered m (length ps) 0 ps) ≡ length ps =
      length-numbered m (length ps) 0 ps in
    let same : whole m ps ≡ record m { frag_id = 0; frag_count = 1 } =
      ap (λ (bytes : Bytes). record m { payload = bytes; frag_id = 0; frag_count = 1 }) cut.2 in
    (numbered m (length ps) 0 ps, got.0, cut.1, size ∙ count, rw (size, ← same) got.1)
