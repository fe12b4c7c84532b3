-- ===== src/Delivery/Drains.antt =====
-- A round that meets no failure publishes what is due (outbox-publisher.go).
use distributed_wallet_api.Prelude.{ℕ, ◌≤◌, ◌≡◌, true, false, ◌==◌, List, Uuid, ok}
use distributed_wallet_api.Events.{Envelope, restore_envelope}
use distributed_wallet_api.Store.{any_row}
use distributed_wallet_api.Store.Search.{All}
use distributed_wallet_api.Delivery.Rows.{
  OutboxRow, ClaimedEvent, has_event_id, is_pending, restore_claimed,
}
use distributed_wallet_api.Delivery.Publisher.{Shared, Channel, OutboxConfig}

-- Nothing fails, the queue accepts, nobody else writes, and the context has not ended.
pub record Healthy (ch : Channel) : Type 0 where
  pub works : (n : ℕ) → ch.fails n ≡ false
  pub accepted : (n : ℕ) → ch.accepts n ≡ true
  pub runs : (n : ℕ) → ch.cancelled n ≡ false
  pub alone : (n : ℕ) (s : Shared) → ch.others n s ≡ s

-- The row holds an event that restores under its identifier and that did not occur in the future.
pub record Deliverable (ch : Channel) (r : OutboxRow) : Type 0 where
  pub envelope : Envelope
  pub restores : restore_envelope ch.json_valid r.event ≡ ok envelope
  pub same : envelope.id ≡ r.event.id
  pub occurred : (n : ℕ) → r.event.occurred_at ≤ ch.clock n

-- Every row of the event is published.
abbrev pub Published : Uuid → List OutboxRow → Type 0
Published id rows = All (λ r. has_event_id id r ≡ true → is_pending r ≡ false) rows

Timely : Channel → List OutboxRow → Type 0
Timely ch rows = All (λ r. (n : ℕ) → r.event.occurred_at ≤ ch.clock n) rows

module _ (ch : Channel) (cfg : OutboxConfig) (healthy : Healthy ch) where
  -- The rows that a claim returns restore to their events.
  record Restored (rows : List OutboxRow) : Type 0 where
    claimed : List ClaimedEvent
    restored : restore_claimed ch.json_valid rows ≡ ok claimed
    covered :
        (id : Uuid)
        → any_row (has_event_id id) rows ≡ true
        → any_row (λ e. e.envelope.id == id) claimed ≡ true
