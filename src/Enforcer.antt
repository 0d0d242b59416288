-- ===== src/Enforcer.antt =====
-- server/internal/agent/goal.go and plan.go: the extensions that keep an agent from giving a final
-- answer before its goal is closed and its plan is done. Nudges is what both share; GoalRules and
-- PlanRules are the two extensions.
pub mod Nudges
pub mod GoalRules
pub mod PlanRules
pub mod StateRules
mod Examples
