-- ===== src/Generation.antt =====
-- infra-recovery/src/generation.rs of the common-desktop-platform evidence: the identity of a
-- deployed generation, the state machine that stages, activates, commits and rolls back, and the
-- journal that decides how an interrupted deployment recovers.
pub mod Types
pub mod Identity
pub mod State
pub mod Journal
pub mod Suite
