-- ===== src/Dns.antt =====
-- dns and component/resolver: the hosts, the enhancer that knows which host an address stands for, and
-- the middleware that answers with fake addresses.
pub mod Enhancer
pub mod Hosts
pub mod FakeAnswer
