-- ===== src/Tests/Socks5.antt =====
-- Tests of the SOCKS5 handshake and of the packets of UDP.
use clash_for_android.Prelude.{
  ◌≡◌, ◌↔◌, refl, false, ◌&&◌, Bytes, codes, [], ◌∷◌, ◌++◌, none, some, bytes_eq, err, arith,
}
use clash_for_android.Server.Conn.{Conn}
use clash_for_android.Socks5.Session.{Says, auth_failed, need_auth}
use clash_for_android.Socks5.Address.{
  split_addr, encode_udp_packet, decode_udp_packet, addr_from_std_addr_port, v4, fragmented,
}
use clash_for_android.Socks5.Address.Udp.{IsAddr, encode_iff_decode}
use clash_for_android.Socks5.Handshake.{Authenticator, User, server_handshake, client_handshake}
use clash_for_android.Socks5.Handshake.Steps.{IsCredential}
use clash_for_android.Socks5.Handshake.Agree.{client_says, server_says, handshake_lem}

abbrev loopback : Bytes
loopback = 1 ∷ 127 ∷ 0 ∷ 0 ∷ 1 ∷ 4 ∷ 56 ∷ []

abbrev site : Bytes
site = 3 ∷ 4 ∷ codes "a.io" ++ (1 ∷ 187 ∷ [])

loopback-IsAddr : IsAddr loopback
unfolding split_addr
loopback-IsAddr = refl

site-IsAddr : IsAddr site
unfolding split_addr
site-IsAddr = refl

from_port : addr_from_std_addr_port (v4 127 0 0 1) 1080 ≡ loopback
unfolding addr_from_std_addr_port
from_port = refl

piece : (decode_udp_packet (0 ∷ 0 ∷ 1 ∷ loopback)).error ≡ some fragmented
unfolding decode_udp_packet
piece = refl

encode_iff_decode_example :
    (encode_udp_packet (some loopback) (7 ∷ 8 ∷ []) ≡ some (0 ∷ 0 ∷ 0 ∷ loopback ++ (7 ∷ 8 ∷ [])))
    ↔ (decode_udp_packet (0 ∷ 0 ∷ 0 ∷ loopback ++ (7 ∷ 8 ∷ []))
        ≡ record { addr = some loopback; payload = 7 ∷ 8 ∷ []; error = none })
encode_iff_decode_example =
    encode_iff_decode loopback (7 ∷ 8 ∷ []) (0 ∷ 0 ∷ 0 ∷ loopback ++ (7 ∷ 8 ∷ [])) loopback-IsAddr

abbrev guard : Authenticator
guard user pass = bytes_eq user (codes "ann") && bytes_eq pass (codes "secret")

abbrev ann : User
ann = record { username = codes "ann"; password = codes "secret" }

ann-IsCredential : IsCredential ann
ann-IsCredential = record {
  some_name = omega arith;
  short_name = omega arith;
  some_password = omega arith;
  short_password = omega arith;
}

-- A client without credentials is asked for them.
asked :
    (client_handshake site 1 none
      (record { input = 5 ∷ 2 ∷ []; room = 10; sent = []; closed = false })).0
    ≡ err auth_failed
unfolding client_handshake clash_for_android.Socks5.Session.◌>>=◌
    clash_for_android.Socks5.Session.transmit clash_for_android.Server.Conn.write
    clash_for_android.Socks5.Session.receive clash_for_android.Server.Conn.read_full
    clash_for_android.Socks5.Session.give clash_for_android.Socks5.Session.raise
asked = refl

handshake_lem_example :
    Says
      (server_handshake (some guard) (some loopback))
      (client_says (some ann) 1 site)
      (server_says (some ann) loopback)
      (record { addr = site; command = 1; user = codes "ann" })
    × Says
        (client_handshake site 1 (some ann))
        (server_says (some ann) loopback)
        (client_says (some ann) 1 site)
        loopback
handshake_lem_example =
    handshake_lem (some guard) (some ann) 1 site loopback (ann-IsCredential, refl) refl site-IsAddr
      loopback-IsAddr
