-- ===== src/Plan.antt =====
-- server/internal/plan/plan.go: plans of steps, one per scope. A step's status is one of the five
-- constants; every caller gets it from ParseStepStatus. The proofs are in the modules below.
pub mod Steps
pub mod Store
pub mod Render
mod Examples
