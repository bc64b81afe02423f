-- ===== src/Accounts.antt =====
-- The accounts service.
pub mod Users
pub mod Server
pub mod Sessions
pub mod Transactions
pub mod Order
pub mod Serving
