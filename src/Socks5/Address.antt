-- ===== src/Socks5/Address.antt =====
-- transport/socks5/socks5.go: addresses on the wire, and the packets of UDP.
pub mod Udp
use clash_for_android.Prelude.{
  ℕ, ◌+◌, ◌/◌, ◌%◌, ◌≡◌, Bool, true, false, not, ◌&&◌, List, [], ◌∷◌, ◌++◌, Bytes, Option, none,
  some, ltb, leb, ◌==◌, if◌then◌else◌, length, take, drop, bytes_eq,
}
use clash_for_android.Socks5.Session.{
  Session, ◌>>=◌, give, raise, receive, short_buffer, address_not_supported,
}

abbrev pub atyp_ipv4 : ℕ
atyp_ipv4 = 1

abbrev pub atyp_domain_name : ℕ
atyp_domain_name = 3

abbrev pub atyp_ipv6 : ℕ
atyp_ipv6 = 4

-- MaxAddrLen
abbrev pub max_addr_len : ℕ
max_addr_len = 259

abbrev pub byte_at : ℕ → Bytes → ℕ
byte_at i [] = 0
byte_at ℕ.zero (b ∷ bs) = b
byte_at (ℕ.suc i) (b ∷ bs) = byte_at i bs

-- The rest of an address of a type and of `n` bytes more.
abbrev pub read_fixed : ℕ → ℕ → Session Bytes
read_fixed aty n = do rest ← receive n; give (aty ∷ rest)

abbrev pub read_domain : ℕ → Session Bytes
read_domain aty = do
  size ← receive 1
  rest ← receive (byte_at 0 size + 2)
  give (aty ∷ byte_at 0 size ∷ rest)

abbrev pub read_typed : ℕ → Session Bytes
read_typed aty =
    if aty == atyp_domain_name
    then read_domain aty
    else if aty == atyp_ipv4
    then read_fixed aty 6
    else if aty == atyp_ipv6
    then read_fixed aty 18
    else raise address_not_supported

-- `ReadAddr` with a buffer of a size. What is returned beside an error is left out.
unfoldable pub read_addr : ℕ → Session Bytes
read_addr size = if ltb size max_addr_len then raise short_buffer else read_from
  where
    read_from : Session Bytes
    read_from = do aty ← receive 1; read_typed (byte_at 0 aty)

-- `ReadAddr0`
unfoldable pub read_addr_0 : Session Bytes
read_addr_0 = do aty ← receive 1; read_typed (byte_at 0 aty)

-- The length of the address that begins with these bytes; `none` is a failure.
abbrev pub addr_len : Bytes → Option ℕ
addr_len [] = none
addr_len (aty ∷ bs) =
    if aty == atyp_domain_name
    then (if leb 1 (length bs) then some (1 + 1 + byte_at 0 bs + 2) else none)
    else if aty == atyp_ipv4
    then some 7
    else if aty == atyp_ipv6
    then some 19
    else none

abbrev pub take_addr : Bytes → Option ℕ → Option Bytes
take_addr b none = none
take_addr b (some n) = if ltb (length b) n then none else some (take n b)

-- `SplitAddr`; `none` is Go's nil.
unfoldable pub split_addr : Bytes → Option Bytes
split_addr b = take_addr b (addr_len b)

pub data UdpError : Type 0 where
  insufficient_length reserved fragmented no_header invalid_address : UdpError

-- What `DecodeUDPPacket` returns; a packet without a good header has its payload all the same.
pub record Decoded : Type 0 where
  pub addr : Option Bytes
  pub payload : Bytes
  pub error : Option UdpError

abbrev pub refused : UdpError → Decoded
refused e = record { addr = none; payload = []; error = some e }

abbrev pub decode_header : Bytes → Option Bytes → Decoded
decode_header rest none = record { addr = none; payload = rest; error = some no_header }
decode_header rest (some a) = record { addr = some a; payload = drop (length a) rest; error = none }

-- `DecodeUDPPacket`
unfoldable pub decode_udp_packet : Bytes → Decoded
unfolding split_addr
decode_udp_packet packet =
    if ltb (length packet) 5
    then refused insufficient_length
    else if not (bytes_eq (take 2 packet) (0 ∷ 0 ∷ []))
    then refused reserved
    else if byte_at 2 packet == 0
    then decode_header (drop 3 packet) (split_addr (drop 3 packet))
    else refused fragmented

-- `EncodeUDPPacket`; `none` is its error.
unfoldable pub encode_udp_packet : Option Bytes → Bytes → Option Bytes
encode_udp_packet none payload = none
encode_udp_packet (some addr) payload = some ((0 ∷ 0 ∷ 0 ∷ []) ++ addr ++ payload)

-- The address of a netip.AddrPort.
pub data IpAddr : Type 0 where
  v4 : ℕ → ℕ → ℕ → ℕ → IpAddr
  v6 : Bytes → IpAddr

-- `AddrFromStdAddrPort`
unfoldable pub addr_from_std_addr_port : IpAddr → ℕ → Bytes
addr_from_std_addr_port (v4 a b c d) port =
    atyp_ipv4 ∷ a ∷ b ∷ c ∷ d ∷ (port / 256) % 256 ∷ port % 256 ∷ []
addr_from_std_addr_port (v6 bytes) port = atyp_ipv6 ∷ bytes ++ (port / 256) % 256 ∷ port % 256 ∷ []
