-- ===== src/Shared.antt =====
-- The packages under shared/ that every service uses.
pub mod Utils
pub mod Events
pub mod Broker
pub mod Delivery
pub mod Consumers
pub mod Middleware
pub mod Configuration
pub mod Auth
pub mod Credentials
pub mod TokenFile
pub mod Startup
pub mod Expectations
pub mod Fakes
