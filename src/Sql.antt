-- ===== src/Sql.antt =====
-- What the SQL statements of the adapters do to a table: a list of rows in scan order. A statement
-- is atomic, and `NOW()` is the same throughout it.
pub mod Update
pub mod Sort
