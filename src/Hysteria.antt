-- ===== src/Hysteria.antt =====
-- transport/hysteria/core: the messages that carry UDP, and their fragments.
pub mod UdpMessage
pub mod Fragments
