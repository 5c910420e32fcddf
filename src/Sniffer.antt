-- ===== src/Sniffer.antt =====
-- component/sniffer: the server name that a TLS client sends in its first message.
pub mod Sniffed
pub mod Tls
