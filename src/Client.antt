-- ===== src/Client.antt =====
-- The command line client.
pub mod Program
pub mod Flags
pub mod Numerals
pub mod Ports
pub mod Jobs
pub mod Controllers
pub mod Lists
pub mod Requests
pub mod Commands
