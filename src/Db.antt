-- ===== src/Db.antt =====
-- server/db.c over an abstract SQLite: the statements, the library's interface, the operations.
pub mod Sql
pub mod Env
pub mod World
pub mod Run
pub mod Accounts
pub mod Servers
pub mod Channels
pub mod Messages
pub mod Friends
pub mod Stable
