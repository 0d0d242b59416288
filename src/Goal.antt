-- ===== src/Goal.antt =====
-- server/internal/goal/goal.go: the goal contract of a scope. A goal's status is one of the four
-- constants; every caller gets it from ParseStatus. The proofs are in the modules below.
pub mod Contract
pub mod Store
mod Examples
