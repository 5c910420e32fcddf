-- ===== src/Tests/Trojan.antt =====
-- Tests of the packets of Trojan.
use clash_for_android.Prelude.{
  List, map, ℕ, ◌-◌, ◌≡◌, ◌≤◌, refl, Bytes, [], ◌∷◌, ◌++◌, none, ok, false, length, arith,
}
use clash_for_android.Server.Conn.{Conn}
use clash_for_android.Socks5.Address.{split_addr}
use clash_for_android.Socks5.Address.Udp.{IsAddr}
use clash_for_android.Trojan.{UdpAddr, PacketConn, lesser, max_length, write_packet, read_from}
use clash_for_android.Trojan.Writing.{joined, framed, parts_of}
use clash_for_android.Trojan.Delivery.{read_times, sent_to, read_times-write_packet}
use clash_for_android.Trojan.Reading.{
  IsReader, IsPending, Gives, read_from_lem, write_packet-IsPending,
}

abbrev local_dns : Bytes
local_dns = 1 ∷ 127 ∷ 0 ∷ 0 ∷ 1 ∷ 0 ∷ 53 ∷ []

abbrev local_udp : UdpAddr
local_udp = record { ip = 127 ∷ 0 ∷ 0 ∷ 1 ∷ []; port = 53 }

abbrev query : Bytes
query = 7 ∷ 8 ∷ 9 ∷ []

abbrev all_there : ℕ → Bytes → ℕ
all_there want bytes = lesser (length bytes) want

all_there-IsReader : IsReader all_there
all_there-IsReader want bytes h k = ground arith

local_dns-IsAddr : IsAddr local_dns
unfolding split_addr
local_dns-IsAddr = refl

abbrev sender : Conn
sender = record { input = []; room = 100; sent = []; closed = false }

abbrev receiver : PacketConn
receiver = record {
  conn = record {
    input = framed local_dns (parts_of query) ++ [];
    room = 0;
    sent = [];
    closed = false;
  };
  remain = 0;
  r_addr = none;
}

room_enough : length (framed local_dns (parts_of query)) ≤ 100
unfolding max_length
room_enough = omega arith

query-IsPending : IsPending local_dns local_udp receiver query []
query-IsPending =
    (write_packet-IsPending local_dns query local_udp sender receiver [] (omega arith) room_enough
      refl refl).2

read_from_lem_example : Gives local_dns local_udp query [] 300 (read_from all_there 300 receiver)
read_from_lem_example =
    read_from_lem all_there local_dns local_udp 300 receiver query [] all_there-IsReader
      local_dns-IsAddr refl (omega arith) (omega arith) query-IsPending

read_times-write_packet_example :
    (n k : ℕ) × (pieces : List Bytes) × (after : PacketConn) × (write_packet local_dns query sender
      ≡ (
        ok n,
        record sender {
          room = 100 - length (framed local_dns (parts_of query));
          sent = [] ++ framed local_dns (parts_of query);
        },
      ))
    × (k ≤ 3)
    × (read_times all_there 300 k receiver ≡ ok (map (sent_to local_udp) pieces, after))
    × (joined pieces ≡ query)
    × (after.remain ≡ 0)
    × (after.conn.input ≡ [])
read_times-write_packet_example =
    read_times-write_packet all_there local_dns local_udp 300 query [] sender receiver
      all_there-IsReader local_dns-IsAddr refl (omega arith) (omega arith) room_enough refl refl
