-- ===== src/Contracts.antt =====
-- packages/contracts: the domain's enumerations, entities and drafts.
pub mod Enums
pub mod Entities
