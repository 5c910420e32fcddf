-- ===== src/Health.antt =====
-- The health of one proxy: common/queue/queue.go and the tests of adapter/adapter.go.
pub mod Queue
pub mod Kind
pub mod Proxy
