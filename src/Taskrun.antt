-- ===== src/Taskrun.antt =====
-- server/internal/taskrun: background tasks that several nodes claim from one shared queue.
pub mod Run
pub mod Queue
pub mod Service
pub mod Cancel
pub mod Execute
pub mod History
mod Examples
