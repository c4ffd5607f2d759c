-- ===== src/Subscription.antt =====
-- native/hub/src/atoms/proxy_parser/parser.rs: subscriptions, and the links of each protocol.
pub mod Json
mod Tests
pub mod Assoc
pub mod Common
pub mod UrlLinks
pub mod TextLinks
pub mod Parser
pub mod Download
