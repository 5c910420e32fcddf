-- ===== src/Hysteria/Fragments.antt =====
-- transport/hysteria/core/frag.go: a message in pieces, and the pieces put together.
pub mod Pieces
pub mod Arrivals
pub mod Feeding
pub mod Reassembly
pub mod RoundTrip
use clash_for_android.Prelude.{
  ℕ, zero, suc, ◌+◌, ◌-◌, ◌/◌, ◌%◌, Bool, true, false, Option, none, some, List, [], ◌∷◌, ◌++◌,
  Bytes, ltb, leb, ◌==◌, if◌then◌else◌, length, take, drop, get_elem?,
}
use clash_for_android.Hysteria.UdpMessage.{UdpMessage, header_size, udp_size}

-- One fragment: the message with a piece of its data.
abbrev pub fragment : UdpMessage → ℕ → ℕ → Bytes → UdpMessage
fragment m frag_count frag_id piece = record m {
  frag_id = frag_id;
  frag_count = frag_count;
  payload = piece;
}

-- The loop, over the bytes that are left; a byte counts the fragments.
abbrev pub cut_data : ℕ → UdpMessage → ℕ → ℕ → ℕ → Bytes → List UdpMessage
cut_data zero m width frag_count frag_id bytes = []
cut_data (suc fuel) m width frag_count frag_id [] = []
cut_data (suc fuel) m width frag_count frag_id (b ∷ bytes) =
    fragment m frag_count frag_id (take width (b ∷ bytes))
    ∷ cut_data fuel m width frag_count ((frag_id + 1) % 256) (drop width (b ∷ bytes))

abbrev pub count_of : ℕ → ℕ → ℕ
count_of width size = (size + width - 1) / width % 256

-- With no room for data Go divides by zero or slices below the start, unless there is no data.
abbrev pub without_room : Bytes → Option (List UdpMessage)
without_room [] = some []
without_room (b ∷ bytes) = none

-- `fragUDPMessage`; `none` is a panic.
unfoldable pub frag_udp_message : UdpMessage → ℕ → Option (List UdpMessage)
frag_udp_message m max_size =
    if leb (udp_size m) max_size
    then some (m ∷ [])
    else if ltb (header_size m) max_size
    then some (
        cut_data (length m.payload) m (max_size - header_size m)
          (count_of (max_size - header_size m) (length m.payload)) 0 m.payload)
    else without_room m.payload

pub record Defragger : Type 0 where
  pub last_id : ℕ
  pub frags : List (Option UdpMessage)
  pub count : ℕ

abbrev pub empty_slots : ℕ → List (Option UdpMessage)
empty_slots zero = []
empty_slots (suc n) = none ∷ empty_slots n

abbrev pub fill_slot : {A : Type 0} → ℕ → A → List (Option A) → List (Option A)
fill_slot i a [] = []
fill_slot zero a (s ∷ ss) = some a ∷ ss
fill_slot (suc i) a (s ∷ ss) = s ∷ fill_slot i a ss

abbrev pub begun : UdpMessage → Defragger
begun m = record {
  last_id = m.msg_id;
  frags = fill_slot m.frag_id m (empty_slots m.frag_count);
  count = 1;
}

abbrev pub with_data : Bytes → Option Bytes → Option Bytes
with_data bs none = none
with_data bs (some rest) = some (bs ++ rest)

-- The data of all fragments; a missing one is a null pointer.
abbrev pub joined_data : List (Option UdpMessage) → Option Bytes
joined_data [] = some []
joined_data (none ∷ ss) = none
joined_data (some m ∷ ss) = with_data m.payload (joined_data ss)

-- The result of a call, with the defragger after it; `none` is a panic.
abbrev pub Fed : Type 0
Fed = Option (Option UdpMessage × Defragger)

abbrev pub assembled : UdpMessage → Defragger → Option Bytes → Fed
assembled m d none = none
assembled m d (some bytes) =
    some (some (record m { payload = bytes; frag_id = 0; frag_count = 1 }), d)

abbrev pub if_complete : UdpMessage → Defragger → Fed
if_complete m d =
    if d.count == length d.frags then assembled m d (joined_data d.frags) else some (none, d)

-- A fragment of the message that is being put together, with what its slot holds.
abbrev pub known_message : UdpMessage → Defragger → Option (Option UdpMessage) → Fed
known_message m d none = none
known_message m d (some (some other)) = some (none, d)
known_message m d (some none) =
    if_complete m (record d { frags = fill_slot m.frag_id m d.frags; count = (d.count + 1) % 256 })

-- `Feed`
unfoldable pub feed : UdpMessage → Defragger → Fed
feed m d =
    if leb m.frag_count 1
    then some (some m, d)
    else if leb m.frag_count m.frag_id
    then some (none, d)
    else if m.msg_id == d.last_id
    then known_message m d (get_elem? d.frags m.frag_id)
    else some (none, begun m)

abbrev pub listed : {A : Type 0} → Option A → List A → List A
listed none rest = rest
listed (some a) rest = a ∷ rest

-- What comes out of a sequence of fragments.
abbrev pub and_feed :
    {A : Type 0} → Fed → (Defragger → Option (List UdpMessage × A)) → Option (List UdpMessage × A)
and_feed none next = none
and_feed (some (o, d)) next = elim (next d) [ none ↦ none | some r ↦ some (listed o r.0, r.1) ]

unfoldable pub feed_all : List UdpMessage → Defragger → Option (List UdpMessage × Defragger)
feed_all [] d = some ([], d)
feed_all (m ∷ ms) d = and_feed (feed m d) (feed_all ms)
