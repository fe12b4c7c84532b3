-- ===== src/Store.antt =====
-- The database: its tables, the mapping of rows, the repositories and the transaction boundary
-- (cmd/internal/infra/postgres, with the constraints of migrations/).
mod Rows
mod Tables
mod Repositories
mod Monad
pub mod Triples
pub mod Committed
pub mod Effects
pub mod Checks
pub mod Steady
pub mod Search
pub mod Writes
pub mod Delivery
pub mod Posting
pub mod Invariant
pub mod RoundTrip
pub mod Reconciliation
pub use Rows.*
unfoldable pub use Rows.{row_of, scan_transaction, scan_wallet}
pub use Tables.*
pub use Repositories.*
unfoldable pub use Repositories.{
  lock_by_id, find_by_player_and_currency, insert_wallet, update_balance, find_by_id,
  find_by_provider_and_external_id, insert_transaction, update_transaction, has_processed_reversal,
  insert_ledger, save_event, register, complete,
}
pub use Monad.*
unfoldable pub use Monad.{within}
