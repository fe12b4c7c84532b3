-- ===== src/Transaction.antt =====
-- The WagerTransaction entity (cmd/internal/domain/wager-transaction.go): its kinds and states,
-- its constructors, its rehydration and its state machine.
mod Kind
mod Entity
mod Restore
mod Transitions
pub mod Invariant
unfoldable pub use Kind.{kind_direction}
pub use Kind.*
unfoldable pub use Entity.{
  validate_transaction_identity, validate_external_metadata, validate_amount_for_kind,
  validate_reference_for_kind, new_opening_transaction, new_external_transaction,
}
pub use Entity.*
unfoldable pub use Restore.{
  check_origin, validate_restored_origin, check_resolved, check_code, check_result,
  validate_restored_outcome, restore_transaction,
}
pub use Restore.*
unfoldable pub use Transitions.{
  ensure_transition, mark_as_processed, reject, fail, mark_as_pending_reference, resolve_reference,
}
pub use Transitions.*
