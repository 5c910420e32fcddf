-- ===== src/Server/Event/Stream.antt =====
-- What a client of server/event.go reads.
use clash_for_android.Prelude.{
  ◌+◌, ◌-◌, ◌≤◌, ◌≡◌, refl, ap, sym, Bool, true, false, List, [], ◌∷◌, ◌++◌, arith, Bytes, Option,
  none, some, ok, All, length, length-append,
}
use mathlib.Core.List.{append-nil, append_assoc}
use clash_for_android.Server.Conn.{Conn, close}
use clash_for_android.Server.Packet.RoundTrip.{
  Fits, frame, frames, length-frame, write-frame, read_packets, read_packets-frames,
}
use clash_for_android.Server.Query.Replies.{after}
use clash_for_android.Server.Event.{Event, item, exit, pull, send}

abbrev shown_on : Option Bytes → List Bytes → List Bytes
shown_on none rest = []
shown_on (some b) rest = b ∷ rest

-- The packets of the items up to the exit, or up to the first item that has no encoding.
abbrev pub shown : {A : Type 0} → (A → Option Bytes) → List (Event A) → List Bytes
shown encode [] = []
shown encode (exit ∷ es) = []
shown encode (item a ∷ es) = shown_on (encode a) (shown encode es)

abbrev stops_on : Option Bytes → Bool → Bool
stops_on none rest = true
stops_on (some b) rest = rest

-- Whether there is an exit, or an item that has no encoding.
abbrev pub stops : {A : Type 0} → (A → Option Bytes) → List (Event A) → Bool
stops encode [] = false
stops encode (exit ∷ es) = true
stops encode (item a ∷ es) = stops_on (encode a) (stops encode es)

abbrev pub closed_if : Bool → Conn → Conn
closed_if true c = close c
closed_if false c = c

after-nil : (c : Conn) → after [] c ≡ c
after-nil c = ground (arith, append-nil c.sent)

after-cons :
    (p : Bytes) (ps : List Bytes) (c : Conn)
    → after ps (record c { room = c.room - (length p + 4); sent = c.sent ++ frame p })
      ≡ after (p ∷ ps) c
after-cons p ps c = ground (
  arith,
  append_assoc c.sent (frame p) (frames ps),
  length-append (frame p) (frames ps),
  length-frame p,
)

-- One turn of the loop, where `k` is the rest of it.
send-after :
    (k : Conn → Conn) (c : Conn) (o : Option Bytes) (ps : List Bytes) (b : Bool)
    → ((d : Conn) → All Fits ps → length (frames ps) ≤ d.room → k d ≡ closed_if b (after ps d))
    → All Fits (shown_on o ps)
    → length (frames (shown_on o ps)) ≤ c.room
    → send k c o ≡ closed_if (stops_on o b) (after (shown_on o ps) c)
send-after k c none ps b h fits room = ap close (sym (after-nil c))
send-after k c (some p) ps b h (f, fs) room =
    let bound : length p + 4 + length (frames ps) ≤ c.room =
      omega (arith, length-append (frame p) (frames ps), length-frame p) in
    let c' = record c { room = c.room - (length p + 4); sent = c.sent ++ frame p } in
    rw (write-frame p c f (omega arith), ← after-cons p ps c) (h c' fs (omega arith))

pull-after :
    {A : Type 0} (encode : A → Option Bytes) (es : List (Event A)) (c : Conn)
    → All Fits (shown encode es)
    → length (frames (shown encode es)) ≤ c.room
    → pull encode es c ≡ closed_if (stops encode es) (after (shown encode es) c)
unfolding pull
pull-after encode [] c fits room = sym (after-nil c)
pull-after encode (exit ∷ es) c fits room = ap close (sym (after-nil c))
pull-after encode (item a ∷ es) c fits room =
    send-after (pull encode es) c (encode a) (shown encode es) (stops encode es)
      (pull-after encode es) fits room

closed_if-sent : (b : Bool) (c : Conn) → (closed_if b c).sent ≡ c.sent
unfolding close
closed_if-sent true c = refl
closed_if-sent false c = refl

closed_if-closed : (b : Bool) (c : Conn) → c.closed ≡ false → (closed_if b c).closed ≡ b
unfolding close
closed_if-closed true c h = refl
closed_if-closed false c h = h

-- On a connection with room, the client of a stream reads one packet for each event before the
-- first exit or the first event that has no encoding, in their order, and the server closes the
-- connection exactly if there is such an end.
pub pull-stream :
    {A : Type 0} (encode : A → Option Bytes) (es : List (Event A)) (c d : Conn)
    → All Fits (shown encode es)
    → length (frames (shown encode es)) ≤ c.room
    → c.sent ≡ []
    → c.closed ≡ false
    → (read_packets (length (shown encode es)) (record d { input = (pull encode es c).sent })
        ≡ ok (shown encode es))
      × ((pull encode es c).closed ≡ stops encode es)
pull-stream encode es c d fits room fresh opened =
    let ps = shown encode es in
    (
      rw
          (
            pull-after encode es c fits room,
            closed_if-sent (stops encode es) (after ps c),
            fresh,
            ← append-nil (frames ps),
          )
          (read_packets-frames ps [] d fits),
      rw (pull-after encode es c fits room)
          (closed_if-closed (stops encode es) (after ps c) opened),
    )
