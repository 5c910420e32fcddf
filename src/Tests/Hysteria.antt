-- ===== src/Tests/Hysteria.antt =====
-- Tests of the messages of UDP of Hysteria and of their fragments.
use clash_for_android.Prelude.{
  All, ◌≡◌, refl, [], ◌∷◌, none, some, ok, err, arith, if◌then◌else◌, length, List,
}
use clash_for_android.Hysteria.UdpMessage.{
  UdpMessage, fields_written, pack, unpack, invalid_data_length,
}
use clash_for_android.Hysteria.UdpMessage.Layout.{IsEncodable, unpack-pack}
use clash_for_android.Hysteria.Fragments.{Defragger, frag_udp_message, feed, feed_all}
use clash_for_android.Hysteria.Fragments.Pieces.{frag_udp_message-Fits, Fits, payloads}
use clash_for_android.Hysteria.Fragments.Reassembly.{picked, all_arrived}
use clash_for_android.Hysteria.Fragments.RoundTrip.{feed_all-frag_udp_message, pieces_needed}

abbrev hello : UdpMessage
hello = record {
  session_id = 7;
  host = [];
  port = 53;
  msg_id = 9;
  frag_id = 0;
  frag_count = 1;
  payload = 1 ∷ 2 ∷ 3 ∷ 4 ∷ 5 ∷ [];
}

abbrev new_defragger : Defragger
new_defragger = record { last_id = 0; frags = []; count = 0 }

-- A first fragment with the number that a new defragger has stands for no slot: a panic.
zero_id : feed (record hello { msg_id = 0; frag_count = 2 }) new_defragger ≡ none
unfolding feed
zero_id = refl

feed_all-frag_udp_message_example :
    (fs : List UdpMessage) × (after : Defragger) × (frag_udp_message hello 16 ≡ some fs)
    × (length fs ≡ pieces_needed hello 16)
    × (feed_all (picked fs (2 ∷ 0 ∷ 2 ∷ 1 ∷ [])) new_defragger
        ≡ some (if all_arrived (length fs) 0 (2 ∷ 0 ∷ 2 ∷ 1 ∷ []) then hello ∷ [] else [], after))
feed_all-frag_udp_message_example =
    feed_all-frag_udp_message hello 16 (2 ∷ 0 ∷ 2 ∷ 1 ∷ []) new_defragger (omega arith)
      (omega arith) (omega arith) (λ e. ground arith) (omega arith)

frag_udp_message-Fits_example :
    (fs : List UdpMessage) × (frag_udp_message hello 16 ≡ some fs)
    × All (Fits 16) fs
    × (payloads fs ≡ hello.payload)
frag_udp_message-Fits_example = frag_udp_message-Fits hello 16 (omega arith)

hello-IsEncodable : IsEncodable hello
hello-IsEncodable = record {
  session_u32 = omega arith;
  host_u16 = omega arith;
  port_u16 = omega arith;
  msg_u16 = omega arith;
  frag_u8 = omega arith;
  count_u8 = omega arith;
  payload_u16 = omega arith;
}

unpack-pack_example :
    (unpack (fields_written hello) ≡ ok (hello, []))
    × (unpack (pack hello) ≡ err invalid_data_length)
unpack-pack_example = unpack-pack hello hello-IsEncodable
