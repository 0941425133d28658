-- ===== src/Subscription.antt =====
-- Subscriptions (model/subscription.go): their periods, their use by requests, their life.
pub mod Reset
pub mod Consume
pub mod Orders
pub mod Due
pub mod Lifecycle
