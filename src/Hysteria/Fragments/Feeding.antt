-- ===== src/Hysteria/Fragments/Feeding.antt =====
-- One fragment fed to a defragger (transport/hysteria/core/frag.go).

use clash_for_android.Prelude.{
  ℕ, suc, ◌+◌, ◌%◌, ◌<◌, ◌≡◌, ◌≢◌, refl, sym, ap, ◌∙◌, Bool, true, false, none, some, List, Bytes,
  leb, ◌==◌, if◌then◌else◌, length, arith, Bool-cases, inl, inr,
}
use clash_for_android.Hysteria.UdpMessage.{UdpMessage}
use clash_for_android.Hysteria.Fragments.{
  fragment, Defragger, empty_slots, fill_slot, if_complete, feed,
}
use clash_for_android.Hysteria.Fragments.Arrivals.{
  numbered, joined, piece_at, slots, full_from, seen_count, also, nothing, length-slots,
  slots-nothing, seen_count-nothing, seen_count-full, seen_count_le, seen_count-also,
  get_elem-slots, fill_slot-slots, joined_data-slots, length-numbered,
}

abbrev pub whole : UdpMessage → List Bytes → UdpMessage
whole m ps = record m { payload = joined ps; frag_id = 0; frag_count = 1 }

abbrev pub pieces : UdpMessage → List Bytes → List UdpMessage
pieces m ps = numbered m (length ps) 0 ps

abbrev pub arrival : UdpMessage → List Bytes → ℕ → UdpMessage
arrival m ps k = fragment m (length ps) k (piece_at ps k)

abbrev pub state_at : UdpMessage → List Bytes → (ℕ → Bool) → Defragger
state_at m ps seen = record {
  last_id = m.msg_id;
  frags = slots seen 0 (pieces m ps);
  count = seen_count seen 0 (pieces m ps);
}

module _ (m : UdpMessage) (ps : List Bytes) (several : 1 < length ps) (byte : length ps < 256) where
  -- A number that arrived before is dropped.
  pub feed-again :
      (seen : ℕ → Bool) (k : ℕ)
      → k < length ps
      → seen k ≡ true
      → feed (arrival m ps k) (state_at m ps seen) ≡ some (none, state_at m ps seen)
  unfolding feed
  feed-again seen k h there =
      let few : leb (length ps) 1 ≡ false = ground arith in
      let fits : leb (length ps) k ≡ false = ground arith in
      let same : (m.msg_id == m.msg_id) ≡ true = ground arith in
      rw (few, fits, same, get_elem-slots m (length ps) seen k k 0 ps (omega arith) h, there) refl

  if_complete-slots :
      (seen : ℕ → Bool) (k : ℕ)
      → if_complete (arrival m ps k) (state_at m ps seen)
        ≡ some
            (if full_from seen 0 (pieces m ps) then some (whole m ps) else none, state_at m ps seen)
  if_complete-slots seen k =
      let counted = seen_count-full seen 0 (pieces m ps) in
      elim (Bool-cases (full_from seen 0 (pieces m ps))) [
        | inl full ↦
            rw
              (
                length-slots seen 0 (pieces m ps),
                counted,
                full,
                joined_data-slots m (length ps) seen 0 ps full,
              )
              refl
        | inr open_slots ↦ rw (length-slots seen 0 (pieces m ps), counted, open_slots) refl
      ]

  -- A new number takes its slot; the last one completes the message.
  feed-new :
      (seen : ℕ → Bool) (k : ℕ)
      → k < length ps
      → seen k ≡ false
      → feed (arrival m ps k) (state_at m ps seen)
        ≡ some (
          if full_from (also seen k) 0 (pieces m ps) then some (whole m ps) else none,
          state_at m ps (also seen k),
        )
  unfolding feed
  feed-new seen k h missing =
      let few : leb (length ps) 1 ≡ false = ground arith in
      let fits : leb (length ps) k ≡ false = ground arith in
      let same : (m.msg_id == m.msg_id) ≡ true = ground arith in
      let more =
        seen_count-also seen k k 0 (pieces m ps) (omega arith) missing
          (rw (length-numbered m (length ps) 0 ps) h) in
      let at_most = seen_count_le (also seen k) 0 (pieces m ps) in
      let size = length-numbered m (length ps) 0 ps in
      let counted : (seen_count seen 0 (pieces m ps) + 1) % 256
          ≡ seen_count (also seen k) 0 (pieces m ps) =
        omega arith in
      rw
        (
          few,
          fits,
          same,
          get_elem-slots m (length ps) seen k k 0 ps (omega arith) h,
          missing,
          counted,
          fill_slot-slots m (length ps) seen k k 0 ps (omega arith) h,
        )
        (if_complete-slots (also seen k) k)

  pub feed-new_if :
      (seen : ℕ → Bool) (k : ℕ) (full : Bool)
      → k < length ps
      → seen k ≡ false
      → full_from (also seen k) 0 (pieces m ps) ≡ full
      → feed (arrival m ps k) (state_at m ps seen)
        ≡ some (if full then some (whole m ps) else none, state_at m ps (also seen k))
  feed-new_if seen k full h missing e = rw (← e) (feed-new seen k h missing)

  pub first-open : (k : ℕ) → k < length ps → full_from (also nothing k) 0 (pieces m ps) ≡ false
  first-open k h =
      let size = length-numbered m (length ps) 0 ps in
      let one = seen_count-also nothing k k 0 (pieces m ps) (omega arith) refl (omega arith) in
      let zero = seen_count-nothing 0 (pieces m ps) in
      let different : (seen_count (also nothing k) 0 (pieces m ps) == length (pieces m ps))
          ≡ false =
        ground arith in
      sym (seen_count-full (also nothing k) 0 (pieces m ps)) ∙ different

  -- The first fragment of the message, for a defragger that has another.
  pub feed-first :
      (d : Defragger) (k : ℕ)
      → m.msg_id ≢ d.last_id
      → k < length ps
      → feed (arrival m ps k) d ≡ some (none, state_at m ps (also nothing k))
  unfolding feed
  feed-first d k other h =
      let few : leb (length ps) 1 ≡ false = ground arith in
      let fits : leb (length ps) k ≡ false = ground arith in
      let same : (m.msg_id == d.last_id) ≡ false = ground arith in
      let size = length-numbered m (length ps) 0 ps in
      let counted : seen_count (also nothing k) 0 (pieces m ps) ≡ 1 =
        seen_count-also nothing k k 0 (pieces m ps) (omega arith) refl (omega arith)
        ∙ ap suc (seen_count-nothing 0 (pieces m ps)) in
      let filled : fill_slot k (arrival m ps k) (empty_slots (length ps))
          ≡ slots (also nothing k) 0 (pieces m ps) =
        ap (fill_slot k (arrival m ps k))
          (sym (slots-nothing 0 (pieces m ps) ∙ ap empty_slots size))
        ∙ fill_slot-slots m (length ps) nothing k k 0 ps (omega arith) h in
      rw (few, fits, same, counted, filled) refl
