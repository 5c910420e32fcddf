-- ===== src/Tests.antt =====
-- The theorems at concrete inputs, one module for each part of the program.
mod Samples
mod Ranges
mod FakeIp
mod Trie
mod Socks5
mod Config
mod Hysteria
mod Trojan
mod Sniffer
mod Rules
mod Dns
mod Statistic
mod Routing
mod Health
mod Group
mod Server
