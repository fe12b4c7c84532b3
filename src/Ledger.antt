-- ===== src/Ledger.antt =====
-- The wallet ledger (cmd/internal/domain/wallet-ledger-entry.go): the entries, and the replay that
-- a reconciliation compares with the stored balance.
mod Entry
mod Replay
pub mod Chain
unfoldable pub use Entry.{
  validate_ledger_arithmetic, build_ledger_entry, new_ledger_entry, restore_ledger_entry,
}
pub use Entry.*
unfoldable pub use Replay.{signed_amount, replay_from, replay_ledger_balance}
pub use Replay.*
