-- ===== src/Tests.antt =====
-- Runs of the definitions on concrete inputs, and the theorems applied to them.
mod Fixture
mod World
mod Handlers
mod Requests
mod Arrays
mod Messages
mod Containers
mod Saved
mod Flags
mod Commands
mod Programs
mod Nodes
mod Accounts
mod Sessions
mod Channels
