-- ===== src/Rules.antt =====
-- rules/logic, and the part of config that checks the sub-rules.
pub mod Logic
pub mod SubRules
pub mod Payload
pub mod Line
