-- ===== src/Trojan.antt =====
-- transport/trojan/trojan.go: packets of UDP on a stream.
pub mod Writing
pub mod Frames
pub mod Reading
pub mod Delivery
use clash_for_android.Prelude.{
  ℕ, zero, suc, ◌+◌, ◌-◌, ◌*◌, ◌/◌, ◌%◌, List, [], ◌∷◌, ◌++◌, Bytes, Option, none, some, Result, ok,
  err, ltb, leb, ◌==◌, if◌then◌else◌, length, take, drop,
}
use clash_for_android.Server.Conn.{Conn}
use clash_for_android.Socks5.Session.{Session, ◌>>=◌ as ◌>>=s◌, give, receive, transmit}
use clash_for_android.Socks5.Address.{atyp_ipv4, atyp_ipv6, byte_at, read_addr}

-- maxLength
unfoldable pub max_length : ℕ
max_length = 8192

abbrev crlf : Bytes
crlf = 13 ∷ 10 ∷ []

-- `WriteHeader`, what it writes.
abbrev pub header : Bytes → ℕ → Bytes → Bytes
header hex_password command socks_5_addr =
    hex_password ++ (crlf ++ (command ∷ (socks_5_addr ++ crlf)))

abbrev pub packet_frame : Bytes → Bytes → Bytes
packet_frame socks_5_addr payload =
    socks_5_addr ++ ((length payload / 256 % 256 ∷ length payload % 256 ∷ []) ++ (crlf ++ payload))

-- `writePacket`
abbrev pub write_one : Bytes → Bytes → Session ℕ
write_one socks_5_addr payload = transmit (packet_frame socks_5_addr payload)

abbrev pub write_rest : (Bytes → Session ℕ) → ℕ → Bytes → Session ℕ
write_rest next total [] = give total
write_rest next total (b ∷ bytes) = next (b ∷ bytes)

-- The loop, over the bytes that are left, with fuel for its turns.
abbrev pub write_pieces : ℕ → ℕ → Bytes → Bytes → Session ℕ
write_pieces zero total socks_5_addr bytes = give total
write_pieces (suc fuel) total socks_5_addr bytes =
    write_one socks_5_addr (take max_length bytes) >>=s λ n.
    write_rest (write_pieces fuel total socks_5_addr) total (drop max_length bytes)

-- `WritePacket`. The count beside an error is left out.
unfoldable pub write_packet : Bytes → Bytes → Session ℕ
write_packet socks_5_addr payload =
    if leb (length payload) max_length
    then write_one socks_5_addr payload
    else write_pieces (length payload) (length payload) socks_5_addr payload

pub record UdpAddr : Type 0 where
  pub ip : Bytes
  pub port : ℕ

abbrev pub be_word : Bytes → ℕ
be_word bytes = byte_at 0 bytes * 256 + byte_at 1 bytes

-- Addr.UDPAddr of transport/socks5/socks5.go, of an address that is read whole.
abbrev pub udp_addr : Bytes → Option UdpAddr
udp_addr [] = none
udp_addr (aty ∷ bytes) =
    if aty == atyp_ipv4
    then some (record { ip = take 4 bytes; port = be_word (drop 4 bytes) })
    else if aty == atyp_ipv6
    then some (record { ip = take 16 bytes; port = be_word (drop 16 bytes) })
    else none

pub data TrojanError : Type 0 where
  read_addr_error parse_addr_error read_length_error packet_invalid read_crlf_error
        read_packet_error read_error :
      TrojanError

abbrev pub TrojanStep : Type 0 → Type 0
TrojanStep A = Conn → Result TrojanError A × Conn

abbrev pub then_step :
    {A B : Type 0} → Result TrojanError A × Conn → (A → TrojanStep B) → Result TrojanError B × Conn
then_step (ok a, c) k = k a c
then_step (err e, c) k = (err e, c)

infixl 5 ◌>>=◌
abbrev pub ◌>>=◌ : {A B : Type 0} → TrojanStep A → (A → TrojanStep B) → TrojanStep B
(m >>= k) c = then_step (m c) k

abbrev pub named_error :
    {A E : Type 0} → TrojanError → Result E A × Conn → Result TrojanError A × Conn
named_error e (ok a, c) = (ok a, c)
named_error e (err x, c) = (err e, c)

-- A part of another protocol, whose error is replaced.
abbrev pub or_fail : {A : Type 0} → TrojanError → Session A → TrojanStep A
or_fail e m c = named_error e (m c)

abbrev pub parsed : Option UdpAddr → TrojanStep UdpAddr
parsed none c = (err parse_addr_error, c)
parsed (some addr) c = (ok addr, c)

abbrev pub checked_total : ℕ → TrojanStep ℕ
checked_total total c = if ltb max_length total then (err packet_invalid, c) else (ok total, c)

abbrev pub lesser : ℕ → ℕ → ℕ
lesser n limit = if ltb n limit then n else limit

pub record Packet : Type 0 where
  pub addr : UdpAddr
  pub payload : Bytes
  pub remain : ℕ

-- `ReadPacket`, with a buffer of a size.
unfoldable pub read_packet : ℕ → TrojanStep Packet
read_packet size = do
  socks_5_addr ← or_fail read_addr_error (read_addr size)
  addr ← parsed (udp_addr socks_5_addr)
  total_bytes ← or_fail read_length_error (receive 2)
  total ← checked_total (be_word total_bytes)
  end_of_line ← or_fail read_crlf_error (receive 2)
  payload ← or_fail read_packet_error (receive (lesser total size))
  λ c. (ok (record { addr = addr; payload = payload; remain = total - lesser total size }), c)

pub record PacketConn : Type 0 where
  pub conn : Conn
  pub remain : ℕ
  pub r_addr : Option UdpAddr

abbrev pub Received : Type 0
Received = Result TrojanError (Bytes × Option UdpAddr) × PacketConn

abbrev pub from_packet : PacketConn → Result TrojanError Packet × Conn → Received
from_packet pc (err e, c) = (err e, record pc { conn = c })
from_packet pc (ok p, c) = (
  ok (p.payload, some p.addr),
  if p.remain == 0
      then record pc { conn = c }
      else record { conn = c; remain = p.remain; r_addr = some p.addr },
)

-- The rest of a packet: what one Read gives of it, of a length that `portion` says.
abbrev pub from_remain : (ℕ → Bytes → ℕ) → ℕ → PacketConn → Bytes → Received
from_remain portion size pc [] = (err read_error, pc)
from_remain portion size pc (b ∷ bytes) =
    let n = portion (lesser pc.remain size) (b ∷ bytes) in
    (
      ok (take n (b ∷ bytes), pc.r_addr),
      record {
        conn = record pc.conn { input = drop n (b ∷ bytes) };
        remain = pc.remain - n;
        r_addr = if pc.remain - n == 0 then none else pc.r_addr;
      },
    )

-- `PacketConn.ReadFrom`
unfoldable pub read_from : (ℕ → Bytes → ℕ) → ℕ → PacketConn → Received
unfolding read_packet
read_from portion size pc =
    if pc.remain == 0
    then from_packet pc (read_packet size pc.conn)
    else from_remain portion size pc pc.conn.input
