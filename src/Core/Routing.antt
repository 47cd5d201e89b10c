-- ===== src/Core/Routing.antt =====
-- packages/core/src/routing: which member a task is given to.
pub mod Age
pub mod Engine
