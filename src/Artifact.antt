-- ===== src/Artifact.antt =====
-- server/internal/artifact: the files in which an agent keeps its working state.
pub mod Names
pub mod Path
pub mod Store
pub mod Disk
pub mod Files
pub mod Memory
mod Examples
