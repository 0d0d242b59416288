-- ===== src/Repo.antt =====
-- server/internal/repo: the queries on the database that decide whether a request may go on.
pub mod Usage
pub mod Budget
mod Examples
