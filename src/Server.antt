-- ===== src/Server.antt =====
-- The control server of the app (core/src/main/golang/server): the unix socket, its packets, the
-- handlers of the twelve commands, and the state that they reach.
pub mod Conn
pub mod Packet
pub mod State
pub mod Select
pub mod Profile
pub mod Query
pub mod Event
pub mod Tun
pub mod Command
