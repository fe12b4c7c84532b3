-- ===== src/Delivery/Rounds.antt =====
-- What every statement of a round keeps, the round keeps (outbox-publisher.go).
use distributed_wallet_api.Prelude.{
  ◌∙◌, pos, ℕ, ◌≡◌, refl, true, inl, inr, Bool, Bool-cases, ◌==◌, ==_iff, arith, List, [], ◌∷◌,
  ◌++◌, ℤ, Text, Uuid, Time, Result, ok, err,
}
use distributed_wallet_api.Backoff.{backoff_delay}
use distributed_wallet_api.Events.{Envelope}
use distributed_wallet_api.Store.{any_row}
use distributed_wallet_api.Store.Search.{any_row-append}
use distributed_wallet_api.Delivery.Rows.{
  OutboxRow, ClaimedEvent, claimed_table, mark_published, reschedule,
}
use distributed_wallet_api.Delivery.Publisher.{
  Shared, PublisherWorld, Channel, OutboxConfig, called, written, write, sent_to_queue, claim,
  delivered, deliver, deliver_all, run_once,
}

-- The queue has taken a message with the identifier.
abbrev pub Sent : Uuid → Shared → Type 0
Sent id s = any_row (λ e. e.id == id) s.sent ≡ true

-- The statements of a publisher keep a property of the outbox and the queue; a confirmation may
-- rest on the message having been sent.
pub record Keeps (P : Shared → Type 0) : Type 0 where
  pub claims :
      (held : Uuid → Bool) (now : Time) (publisher_id : Text) (limit lease : ℕ) (s : Shared)
      → P s
      → P (record s { rows = claimed_table held now publisher_id limit lease s.rows })
  pub sends : (e : Envelope) (s : Shared) → P s → P (record s { sent = s.sent ++ e ∷ [] })
  pub confirms :
      (now : Time) (id : Uuid) (s : Shared) {rows : List OutboxRow}
      → Sent id s
      → mark_published now id s.rows ≡ ok rows
      → P s
      → P (record s { rows = rows })
  pub releases :
      (now : Time) (id : Uuid) (delay : ℤ) (message : Text) (s : Shared) {rows : List OutboxRow}
      → reschedule now id delay message s.rows ≡ ok rows
      → P s
      → P (record s { rows = rows })

-- What the other instances do keeps the property, and unsends nothing.
pub record Peers (ch : Channel) (P : Shared → Type 0) : Type 0 where
  pub keep : (n : ℕ) (s : Shared) → P s → P (ch.others n s)
  pub unsend_nothing : (n : ℕ) (id : Uuid) (s : Shared) → Sent id s → Sent id (ch.others n s)

module _ (ch : Channel) (cfg : OutboxConfig) (P : Shared → Type 0) (keeps : Keeps P)
    (peers : Peers ch P) where
  written-keeps :
      (w : PublisherWorld) (r : Result (List OutboxRow))
      → P w.shared
      → ((rows : List OutboxRow) → r ≡ ok rows → P (record w.shared { rows = rows }))
      → P (written ch cfg w r).shared
  written-keeps w (ok rows) h k = k rows refl
  written-keeps w (err e) h k = h

  write-keeps :
      (statement : Time → List OutboxRow → Result (List OutboxRow)) (w : PublisherWorld)
      → P (called ch cfg w).shared
      → ((now : Time) (rows : List OutboxRow)
          → statement now (called ch cfg w).shared.rows ≡ ok rows
          → P (record (called ch cfg w).shared { rows = rows }))
      → P (write ch cfg statement w).shared
  write-keeps statement w h k = elim (Bool-cases (ch.fails w.calls)) [
    | inl t ↦ rw t h
    | inr f ↦ rw f (
        written-keeps (called ch cfg w) (statement (ch.clock w.calls) (called ch cfg w).shared.rows)
          h (k (ch.clock w.calls)))
  ]

  sent_now : (e : Envelope) (s : Shared) → Sent e.id (record s { sent = s.sent ++ e ∷ [] })
  sent_now e s = any_row-append (λ x. x.id == e.id) s.sent e ∙ ground (arith, ==_iff e.id e.id)

  pub deliver-keeps :
      (event : ClaimedEvent) (w : PublisherWorld) → P w.shared → P (deliver ch cfg event w).shared
  unfolding deliver
  deliver-keeps event w h =
      let e = event.envelope in
      let start = peers.keep w.calls w.shared h in
      elim (Bool-cases (ch.accepts w.calls)) [
        | inl t ↦
            let out = sent_to_queue ch cfg e (called ch cfg w) in
            rw t (
              write-keeps (λ now. mark_published now e.id) out
                (peers.keep out.calls out.shared (keeps.sends e (called ch cfg w).shared start))
                (λ now rows done.
                  keeps.confirms now e.id (called ch cfg out).shared
                    (peers.unsend_nothing out.calls e.id out.shared
                      (sent_now e (called ch cfg w).shared))
                    done
                    (peers.keep out.calls out.shared
                      (keeps.sends e (called ch cfg w).shared start))))
        | inr f ↦
            let next = called ch cfg w in
            let delay =
              backoff_delay (pos event.attempts) cfg.retry_base_delay cfg.retry_max_delay in
            rw f (
              write-keeps (λ now. reschedule now e.id delay (ch.cause w.calls)) next
                (peers.keep next.calls next.shared start)
                (λ now rows done.
                  keeps.releases now e.id delay (ch.cause w.calls) (called ch cfg next).shared done
                    (peers.keep next.calls next.shared start)))
      ]

  deliver_all-keeps :
      (claimed : List ClaimedEvent) (w : PublisherWorld)
      → P w.shared
      → P (deliver_all ch cfg claimed w).shared
  unfolding deliver_all
  deliver_all-keeps [] w h = h
  deliver_all-keeps (event ∷ claimed) w h = elim (Bool-cases (ch.cancelled w.calls)) [
    | inl t ↦ rw t h
    | inr f ↦ rw f (deliver_all-keeps claimed (deliver ch cfg event w) (deliver-keeps event w h))
  ]

  delivered-keeps :
      (r : Result (List ClaimedEvent)) (w : PublisherWorld)
      → P w.shared
      → P (delivered ch cfg r w).1.shared
  delivered-keeps (ok claimed) w h = deliver_all-keeps claimed w h
  delivered-keeps (err e) w h = h

  -- A round keeps the property, whatever fails on the way.
  pub run_once-keeps : (w : PublisherWorld) → P w.shared → P (run_once ch cfg w).1.shared
  unfolding run_once
  run_once-keeps w h =
      let start = peers.keep w.calls w.shared h in
      elim (Bool-cases (ch.fails w.calls)) [
        | inl t ↦ rw t start
        | inr f ↦ rw f (
            delivered-keeps _ (claim ch cfg w) (
              keeps.claims (ch.held w.calls) (ch.clock w.calls) cfg.publisher_id cfg.batch_size
                cfg.claim_lease (called ch cfg w).shared start))
      ]
