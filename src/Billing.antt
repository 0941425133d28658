-- ===== src/Billing.antt =====
-- Billing of a request (service/billing_session.go, service/funding_source.go, service/billing.go):
-- the funding source, the session that reserves, settles and refunds, and the choice of the source.
pub mod Funding
pub mod Session
pub mod Tasks
pub mod PostConsume
pub mod Factory
