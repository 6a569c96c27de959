-- ===== src/Migrations.antt =====
-- database/migrations: the revisions of the database as lists of operations.
pub mod Op
pub mod Versions
pub mod Laws
pub mod Env
