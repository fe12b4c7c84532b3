-- ===== src/Process.antt =====
-- The financial entry point (cmd/internal/usecase/process-wager-transaction.go).
mod Command
mod Flow
mod Execute
pub use Command.*
unfoldable pub use Command.{validate_command, movement_of, apply_movement, agrees, replay_of}
pub use Flow.*
unfoldable pub use Flow.{
  save_events, record_operation, conclude, reject_operation, park_operation, resolve_reference_of,
  settle, after_lock, apply_operation,
}
pub use Execute.*
unfoldable pub use Execute.{run_with_retry, execute, execute_from_message}
pub mod Movement
pub mod Preserve
pub mod Settle
pub mod Resolve
pub mod Received
pub mod Applied
pub mod Safety
pub mod Frame
pub mod History
pub mod Acknowledged
pub mod Atomicity
pub mod Idempotency
pub mod Missing
pub mod Decisions
