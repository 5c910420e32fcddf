-- ===== src/Group.antt =====
-- The policy groups (core/src/main/golang/clash/adapter/outboundgroup).
pub mod Base
pub mod Selector
pub mod Fallback
pub mod UrlTest
pub mod LoadBalance
