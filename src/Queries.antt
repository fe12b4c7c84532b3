-- ===== src/Queries.antt =====
-- The reads (cmd/internal/usecase/queries.go and infra/postgres/query-repository.go).
mod Repository
pub mod History
pub use Repository.*
unfoldable pub use Repository.{
  scan_ledger_entry, scan_rows, find_wallet, find_transaction, find_transaction_by_provider,
  page_ledger, ledger_snapshot,
}
