-- ===== src/Events.antt =====
-- The integration events (cmd/internal/events): the envelope and the four events that the service
-- publishes.
mod Contract
mod Build
unfoldable pub use Contract.{
  aggregate_for, metadata_validate, new_envelope, validate_payload, restore_envelope,
}
pub use Contract.*
unfoldable pub use Build.{
  new_subject, new_wager_transaction_processed, new_wager_transaction_rejected,
  new_wager_transaction_pending_reference, new_wallet_balance_changed,
}
pub use Build.*
