-- ===== src/Delivery.antt =====
-- The delivery of the outbox (infra/postgres/outbox-repository.go, infra/worker/outbox-publisher.go).
mod Rows
mod Publisher
pub mod Rounds
pub mod Safety
pub mod Claims
pub mod Drains
pub use Rows.*
unfoldable pub use Rows.{
  chosen_rows, restore_claimed, claimed_table, claimed_rows, mark_published, reschedule,
}
pub use Publisher.*
unfoldable pub use Publisher.{deliver, deliver_all, run_once}
