-- ===== src/Core/Wellbeing.antt =====
-- packages/core/src/wellbeing/wellbeing.ts. The clocks of its inputs are valid dates, as time values.
pub mod Windows
pub mod Gaps
pub mod Placement
pub mod Equity
pub mod Loads
pub mod Fairness
mod Tests
