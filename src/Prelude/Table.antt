-- ===== src/Prelude/Table.antt =====
-- SQL statements on a table, read as PostgreSQL documents them: a table is the list of its rows in
-- the order of insertion, and a statement is atomic.
mod Statements
mod Found
mod Counted
mod Rows
unfoldable pub use Statements.*
pub use Found.*
pub use Counted.*
pub use Rows.*
