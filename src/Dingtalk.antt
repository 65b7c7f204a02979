-- ===== src/Dingtalk.antt =====
-- internal/dingtalk: the connection to DingTalk.
pub mod TokenCache
mod Tests
