-- ===== src/Mysql.antt =====
-- packages/db-adapter-mysql/src: the repositories on MySQL, over the tables of Sql. `NOW()` is a whole
-- second there, and so are all columns of times.
pub mod Errors
pub mod EventRepository
pub mod Maintenance
pub mod EventService
pub mod Inbox
