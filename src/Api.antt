-- ===== src/Api.antt =====
-- services/api/src: the services between the HTTP controllers and the database.
pub mod Table
pub mod Action
pub mod Database
pub mod TaskRows
pub mod Guard
pub mod Owned
pub mod Members
pub mod Events
pub mod Availability
pub mod Wellbeing
pub mod Households
pub mod Approvals
pub mod Tasks
pub mod Escalations
pub mod Queue
pub mod Scheduler
