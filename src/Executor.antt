-- ===== src/Executor.antt =====
-- server/internal/executor: commands run under a policy of dangerous commands.
pub mod Blacklist
pub mod Host
pub mod Safe
mod Examples
