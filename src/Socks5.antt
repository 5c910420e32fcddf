-- ===== src/Socks5.antt =====
-- clash/transport/socks5: the addresses of SOCKS5, its UDP packets, and the handshake of both sides.
pub mod Session
pub mod Address
pub mod Handshake
