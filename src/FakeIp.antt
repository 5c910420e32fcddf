-- ===== src/FakeIp.antt =====
-- clash/component/fakeip: the addresses that stand for host names. An address is a number.
pub mod Recency
pub mod Base
pub mod Pool
