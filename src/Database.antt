-- ===== src/Database.antt =====
-- server/db: what the code does around the database, which is not part of the repository.
pub mod PlayerDao
pub mod FailureSink
pub mod Pool
pub mod Redis
