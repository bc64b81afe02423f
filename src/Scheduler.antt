-- ===== src/Scheduler.antt =====
-- The scheduler service.
pub mod Container
pub mod Lifecycle
pub mod Listing
pub mod Nodes
pub mod Saved
pub mod Models
pub mod Handlers
pub mod Requests
pub mod Creating
pub mod Streams
pub mod Hardware
pub mod Iterating
pub mod Serving
pub mod LimitMessage
