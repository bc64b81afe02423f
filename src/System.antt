-- ===== src/System.antt =====
-- The parts of the repository together: the tokens of the accounts service, the client that saves
-- them, and the scheduler that gets them; a node of the scheduler at the accounts service.
pub mod Session
pub mod Nodes
pub mod Fingerprints
