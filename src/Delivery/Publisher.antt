-- ===== src/Delivery/Publisher.antt =====
-- `OutboxPublisher` (infra/worker/outbox-publisher.go): one round of the worker.
use distributed_wallet_api.Prelude.{
  ℕ, ◌+◌, Bool, if◌then◌else◌, List, [], ◌∷◌, ◌++◌, length, ℤ, pos, Text, Uuid, Time, Result, ok,
  err, infrastructure,
}
use distributed_wallet_api.Backoff.{backoff_delay}
use distributed_wallet_api.Events.{Envelope}
use distributed_wallet_api.Delivery.Rows.{
  OutboxRow, ClaimedEvent, claimed_table, claimed_rows, restore_claimed, mark_published, reschedule,
}

-- The outbox, and the messages that the queue has taken.
pub record Shared : Type 0 where
  pub rows : List OutboxRow
  pub sent : List Envelope

pub record PublisherWorld : Type 0 where
  pub shared : Shared
  pub calls : ℕ

-- What the worker takes from outside, by the number of the call: the clock of the database, the
-- rows that other statements hold, whether a call of the database fails, whether the queue accepts
-- a message and with what text it refuses one, whether the context has ended, and what other
-- instances have done before the call.
pub record Channel : Type 0 where
  pub clock : ℕ → Time
  pub held : ℕ → Uuid → Bool
  pub fails : ℕ → Bool
  pub accepts : ℕ → Bool
  pub cause : ℕ → Text
  pub cancelled : ℕ → Bool
  pub others : ℕ → Shared → Shared
  pub json_valid : Text → Bool

-- `config.Outbox`
pub record OutboxConfig : Type 0 where
  pub publisher_id : Text
  pub batch_size : ℕ
  pub claim_lease : ℕ
  pub retry_base_delay : ℤ
  pub retry_max_delay : ℤ

module _ (ch : Channel) (cfg : OutboxConfig) where
  -- A call begins on what the other instances have left.
  abbrev pub called : PublisherWorld → PublisherWorld
  called w = record { shared = ch.others w.calls w.shared; calls = w.calls + 1 }

  abbrev pub written : PublisherWorld → Result (List OutboxRow) → PublisherWorld
  written w (ok rows) = record w { shared = record w.shared { rows = rows } }
  written w (err e) = w

  -- A statement that writes the outbox; the worker only logs its error.
  abbrev pub write :
      (Time → List OutboxRow → Result (List OutboxRow)) → PublisherWorld → PublisherWorld
  write statement w =
      if ch.fails w.calls
      then called w
      else written (called w) (statement (ch.clock w.calls) (called w).shared.rows)

  abbrev pub sent_to_queue : Envelope → PublisherWorld → PublisherWorld
  sent_to_queue envelope w = record w {
    shared = record w.shared { sent = w.shared.sent ++ envelope ∷ [] };
  }

  unfoldable pub deliver : ClaimedEvent → PublisherWorld → PublisherWorld
  deliver event w =
      if ch.accepts w.calls
      then write (λ now. mark_published now event.envelope.id)
          (sent_to_queue event.envelope (called w))
      else write
          (λ now.
            reschedule now event.envelope.id
              (backoff_delay (pos event.attempts) cfg.retry_base_delay cfg.retry_max_delay)
              (ch.cause w.calls))
          (called w)

  -- The loop over the claimed events.
  unfoldable pub deliver_all : List ClaimedEvent → PublisherWorld → PublisherWorld
  deliver_all [] w = w
  deliver_all (event ∷ claimed) w =
      if ch.cancelled w.calls then w else deliver_all claimed (deliver event w)

  abbrev pub delivered : Result (List ClaimedEvent) → PublisherWorld → Result ℕ × PublisherWorld
  delivered (err e) w = (err e, w)
  delivered (ok claimed) w = (ok (length claimed), deliver_all claimed w)

  -- The claim is one statement, so an event that cannot be restored stays claimed.
  abbrev pub claim : PublisherWorld → PublisherWorld
  claim w = record (called w) {
    shared = record (called w).shared {
      rows =
          claimed_table (ch.held w.calls) (ch.clock w.calls) cfg.publisher_id cfg.batch_size
            cfg.claim_lease (called w).shared.rows;
    };
  }

  -- `runOnce`
  unfoldable pub run_once : PublisherWorld → Result ℕ × PublisherWorld
  run_once w =
      if ch.fails w.calls
      then (err infrastructure, called w)
      else delivered
          (restore_claimed ch.json_valid (
            claimed_rows (ch.held w.calls) (ch.clock w.calls) cfg.publisher_id cfg.batch_size
              cfg.claim_lease (called w).shared.rows))
          (claim w)
