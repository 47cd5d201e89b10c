-- ===== src/Core.antt =====
-- packages/core: the deterministic engines.
pub mod Text
pub mod Json
pub mod Time
pub mod Samples
pub mod Locale
pub mod Escalation
pub mod Calendar
pub mod Routing
pub mod Wellbeing
pub mod Commute
pub mod Seasonal
pub mod Recurrence
pub mod Dependencies
