-- ===== src/Server/Query/Replies.antt =====
-- What a client reads after a request for URL tests (`handleUrlTest` of server/proxies.go).
use clash_for_android.Prelude.{
  ◌+◌, ◌-◌, ◌≤◌, ◌≡◌, refl, sym, ◌∙◌, ap, List, [], ◌∷◌, ◌++◌, Bytes, Option, none, some, ok, All,
  length, length-append, arith, String, lookup,
}
use mathlib.Core.List.Permᴰ
use mathlib.Core.List.{append_assoc, append-nil, Perm, Permᴰ}
use mathlib.Core.Logic.{∥∥₁_map}
use clash_for_android.Server.Conn.{Conn}
use clash_for_android.Server.Packet.{read_command_packet, write_command_packet}
use clash_for_android.Server.Packet.RoundTrip.{
  Fits, frame, frames, length-frame, write-frame, read-frame, read_packets, read_packets-frames,
}
use clash_for_android.Server.State.{App, Machine, TestRequest, Env}
use clash_for_android.Server.Select.{respond}
use clash_for_android.Server.Query.{
  test_replies, write_each, handle_url_test, test_with, keep_reply, tested_proxy,
}

-- A connection after packets for which there was room.
abbrev pub after : List Bytes → Conn → Conn
after ps c = record c { room = c.room - length (frames ps); sent = c.sent ++ frames ps }

pub write_each-frames :
    (ps : List Bytes) (c : Conn)
    → All Fits ps
    → length (frames ps) ≤ c.room
    → write_each ps c ≡ after ps c
unfolding write_each
write_each-frames [] c f r = ground (arith, append-nil c.sent)
write_each-frames (p ∷ ps) c (f, fs) r =
    let bound : length p + 4 + length (frames ps) ≤ c.room =
      omega (arith, length-append (frame p) (frames ps), length-frame p) in
    let c' = record c { room = c.room - (length p + 4); sent = c.sent ++ frame p } in
    rw (write-frame p c f (omega arith), write_each-frames ps c' fs (omega arith))
      (ground (
        arith,
        append_assoc c.sent (frame p) (frames ps),
        length-append (frame p) (frames ps),
        length-frame p,
      ))

-- The responses, closed by the empty packet.
abbrev pub answer : Env → TestRequest → App → List Bytes
answer env r app = test_replies env r app (env.finish r.names) ++ [] ∷ []

write_each-append :
    (ps : List Bytes) (b : Bytes) (c : Conn)
    → write_each (ps ++ b ∷ []) c ≡ (write_command_packet b (write_each ps c)).1
unfolding write_each
write_each-append [] b c = refl
write_each-append (p ∷ ps) b c = write_each-append ps b (write_command_packet p c).1

test_with-sent :
    (env : Env) (m : Machine) (r : TestRequest)
    → All Fits (answer env r m.app)
    → length (frames (answer env r m.app)) ≤ m.conn.room
    → (test_with env m (some r)).conn ≡ after (answer env r m.app) m.conn
unfolding respond
test_with-sent env m r fits room =
    sym (write_each-append (test_replies env r m.app (env.finish r.names)) [] m.conn)
    ∙ write_each-frames (answer env r m.app) m.conn fits room

-- A request for URL tests that can be read is answered, on a connection with room, by the
-- responses in the order in which the tests end and then an empty packet; the client reads exactly
-- these.
pub handle_url_test-answer :
    (env : Env) (m : Machine) (packet rest : Bytes) (r : TestRequest) (d : Conn)
    → Fits packet
    → m.conn.input ≡ frame packet ++ rest
    → env.test_request packet ≡ some r
    → m.conn.sent ≡ []
    → All Fits (answer env r m.app)
    → length (frames (answer env r m.app)) ≤ m.conn.room
    → read_packets
        (length (answer env r m.app))
        (record d { input = (handle_url_test env m).conn.sent })
      ≡ ok (answer env r m.app)
unfolding handle_url_test
handle_url_test-answer env m packet rest r d fits input parsed fresh all_fit room =
    let c = record m.conn { input = rest } in
    let read : read_command_packet m.conn ≡ (ok packet, c) =
      ap (λ (b : Bytes). read_command_packet (record m.conn { input = b })) input
      ∙ read-frame packet rest m.conn fits in
    let sent =
      ap (λ (k : Conn). k.sent) (test_with-sent env (record m { conn = c }) r all_fit room) in
    rw (read, parsed, sent, fresh, ← append-nil (frames (answer env r m.app)))
      (read_packets-frames (answer env r m.app) [] d all_fit)

keep_reply-permd :
    (o : Option Bytes) {xs ys : List Bytes}
    → Permᴰ xs ys
    → Permᴰ (keep_reply o xs) (keep_reply o ys)
keep_reply-permd none p = p
keep_reply-permd (some b) p = Permᴰ.cons refl p

keep_reply-swap :
    (o u : Option Bytes) (xs : List Bytes)
    → Permᴰ (keep_reply o (keep_reply u xs)) (keep_reply u (keep_reply o xs))
keep_reply-swap none u xs = Permᴰ.refl (keep_reply u xs)
keep_reply-swap (some b) none xs = Permᴰ.refl (b ∷ xs)
keep_reply-swap (some b) (some c) xs = Permᴰ.swap refl refl

test_replies-permd :
    (env : Env) (r : TestRequest) (app : App) {xs ys : List String}
    → Permᴰ xs ys
    → Permᴰ (test_replies env r app xs) (test_replies env r app ys)
unfolding test_replies
test_replies-permd env r app Permᴰ.nil = Permᴰ.nil
test_replies-permd env r app (Permᴰ.cons {b = b} e p) = rw e (
    keep_reply-permd (tested_proxy env r b (lookup b app.proxies)) (test_replies-permd env r app p))
test_replies-permd env r app (Permᴰ.swap {a' = a'} {b' = b'} {l = l} e f) =
    rw (e, f)
      (keep_reply-swap (tested_proxy env r b' (lookup b' app.proxies))
        (tested_proxy env r a' (lookup a' app.proxies)) (test_replies env r app l))
test_replies-permd env r app (Permᴰ.trans p q) =
    Permᴰ.trans (test_replies-permd env r app p) (test_replies-permd env r app q)

-- Whatever the order in which the tests end, the responses are those of the order in which the
-- names were asked for, up to a permutation.
pub test_replies-perm :
    (env : Env) (r : TestRequest) (app : App)
    → Perm (env.finish r.names) r.names
    → Perm (test_replies env r app (env.finish r.names)) (test_replies env r app r.names)
test_replies-perm env r app p = ∥∥₁_map p (test_replies-permd env r app)
