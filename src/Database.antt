-- ===== src/Database.antt =====
-- The database behind the program: its tables, its row-level security and its transactions.
pub mod Schema
pub mod Table
pub mod Keys
pub mod Session
pub mod Record
pub mod Isolation
