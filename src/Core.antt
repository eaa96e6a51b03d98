-- ===== src/Core.antt =====
-- The vocabulary of app/core: enumerations and the domain models that the rules read.
pub mod Enums
pub mod Incident
pub mod Context
pub mod Plan
pub mod Tests
