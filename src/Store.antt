-- ===== src/Store.antt =====
-- The durable state: a row type for each table, and transactions on the whole database.
mod Rows
mod Transaction
unfoldable pub use Rows.*
unfoldable pub use Transaction.*
