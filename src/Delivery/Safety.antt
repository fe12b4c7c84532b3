-- ===== src/Delivery/Safety.antt =====
-- What a round of the publisher never breaks (outbox-repository.go, outbox-publisher.go).
use distributed_wallet_api.Prelude.{
  ℤ, Text, ◌≤◌, ◌≡◌, refl, true, false, inl, inr, Bool, Bool-cases, ◌==◌, ==_iff, arith, some, List,
  [], ◌∷◌, ◌++◌, Uuid, Time, ok,
}
use distributed_wallet_api.Events.{Envelope}
use distributed_wallet_api.Store.{update_rows}
use distributed_wallet_api.Store.Search.{All, All-map, any_row-append}
use distributed_wallet_api.Delivery.Rows.{
  OutboxRow, is_pending, claimed_table, is_unpublished, confirmed, mark_published, released,
  reschedule, later,
}
use distributed_wallet_api.Delivery.Publisher.{
  Shared, PublisherWorld, Channel, OutboxConfig, run_once,
}
use distributed_wallet_api.Delivery.Rounds.{Sent, Keeps, Peers, run_once-keeps}

-- A published event has been sent.
abbrev pub Confirmed : Shared → Type 0
Confirmed s = All (λ r. is_pending r ≡ false → Sent r.event.id s) s.rows

-- The row still holds the event, its attempts only grow, and a publication stands.
pub record RowKept (r r' : OutboxRow) : Type 0 where
  pub event : r'.event ≡ r.event
  pub attempts : r.attempts ≤ r'.attempts
  pub published : (t : Time) → r.published_at ≡ some t → r'.published_at ≡ some t

-- Every row of the first table is kept in the second, which may have more rows at its end.
abbrev pub Kept : List OutboxRow → List OutboxRow → Type 0
Kept [] rs' = Unit
Kept (r ∷ rs) [] = ⊥
Kept (r ∷ rs) (r' ∷ rs') = RowKept r r' × Kept rs rs'

marked_rows :
    (now : Time) (id : Uuid) (rows : List OutboxRow) {rows' : List OutboxRow}
    → mark_published now id rows ≡ ok rows'
    → rows' ≡ update_rows (is_unpublished id) (confirmed now) rows
unfolding mark_published
marked_rows now id rows e = ground arith

released_rows :
    (now : Time) (id : Uuid) (delay : ℤ) (message : Text) (rows : List OutboxRow)
    {rows' : List OutboxRow}
    → reschedule now id delay message rows ≡ ok rows'
    → rows' ≡ update_rows (is_unpublished id) (released (later now delay) message) rows
unfolding reschedule
released_rows now id delay message rows e = ground arith

All-update :
    (P : OutboxRow → Type 0) (p : OutboxRow → Bool) (f : OutboxRow → OutboxRow)
    (rs : List OutboxRow)
    → ((r : OutboxRow) → p r ≡ true → P r → P (f r))
    → All P rs
    → All P (update_rows p f rs)
All-update P p f [] k h = tt
All-update P p f (r ∷ rs) k h = elim (Bool-cases (p r)) [
  | inl t ↦ rw t (k r t h.0, All-update P p f rs k h.1)
  | inr e ↦ rw e (h.0, All-update P p f rs k h.1)
]

Sent-append :
    (e : Envelope) (s : Shared) (id : Uuid)
    → Sent id s
    → Sent id (record s { sent = s.sent ++ e ∷ [] })
Sent-append e s id h = ground (arith, any_row-append (λ x. x.id == id) s.sent e)

has_id : (id : Uuid) (r : OutboxRow) → is_unpublished id r ≡ true → r.event.id ≡ id
has_id id r h = ground (arith, ==_iff r.event.id id)

Confirmed-Keeps : Keeps Confirmed
unfolding claimed_table reschedule
Confirmed-Keeps = record {
  claims = λ held now publisher_id limit lease s h.
      All-update (λ r. is_pending r ≡ false → Sent r.event.id s) _ _ s.rows (λ r t k. k) h;
  sends = λ e s h.
      All-map (λ r. is_pending r ≡ false → Sent r.event.id s) _ s.rows
        (λ r k p. Sent-append e s r.event.id (k p)) h;
  confirms = λ now id s {rows} sent done h. rw (marked_rows now id s.rows done) (
      All-update (λ r. is_pending r ≡ false → Sent r.event.id s) _ _ s.rows
        (λ r t k p. rw (has_id id r t) sent) h);
  releases = λ now id delay message s {rows} done h.
      rw (released_rows now id delay message s.rows done)
        (All-update (λ r. is_pending r ≡ false → Sent r.event.id s) _ _ s.rows (λ r t k. k) h);
}

-- No event is marked as published that was not sent: if every published row is one whose identifier
-- the queue has taken, this holds after a round too, whatever calls fail and wherever the round is
-- cut off, provided that the other instances keep it and unsend nothing.
pub run_once-Confirmed :
    (ch : Channel) (cfg : OutboxConfig) (w : PublisherWorld)
    → Peers ch Confirmed
    → Confirmed w.shared
    → Confirmed (run_once ch cfg w).1.shared
run_once-Confirmed ch cfg w peers h = run_once-keeps ch cfg Confirmed Confirmed-Keeps peers w h

RowKept-refl : (r : OutboxRow) → RowKept r r
RowKept-refl r = record { event = refl; attempts = omega arith; published = λ t e. e }

Kept-refl : (rs : List OutboxRow) → Kept rs rs
Kept-refl [] = tt
Kept-refl (r ∷ rs) = (RowKept-refl r, Kept-refl rs)

Kept-update :
    (p : OutboxRow → Bool) (f : OutboxRow → OutboxRow) (rs rs' : List OutboxRow)
    → ((r r' : OutboxRow) → p r' ≡ true → RowKept r r' → RowKept r (f r'))
    → Kept rs rs'
    → Kept rs (update_rows p f rs')
Kept-update p f [] rs' k h = tt
Kept-update p f (r ∷ rs) [] k h = h
Kept-update p f (r ∷ rs) (r' ∷ rs') k h = elim (Bool-cases (p r')) [
  | inl t ↦ rw t (k r r' t h.0, Kept-update p f rs rs' k h.1)
  | inr e ↦ rw e (h.0, Kept-update p f rs rs' k h.1)
]

pending_only :
    (id : Uuid) (r r' : OutboxRow)
    → is_unpublished id r' ≡ true
    → RowKept r r'
    → (t : Time) → r.published_at ≡ some t
    → ⊥
pending_only id r r' u k t e = ground (arith, k.published t e)

Kept-Keeps : (rs : List OutboxRow) → Keeps (λ s. Kept rs s.rows)
unfolding claimed_table
Kept-Keeps rs = record {
  claims = λ held now publisher_id limit lease s h.
      Kept-update _ _ rs s.rows
        (λ r r' t k. record {
          event = k.event;
          attempts = omega (arith, k.attempts);
          published = k.published;
        })
        h;
  sends = λ e s h. h;
  confirms = λ now id s {rows} sent done h. rw (marked_rows now id s.rows done) (
      Kept-update _ _ rs s.rows
        (λ r r' u k. record {
          event = k.event;
          attempts = k.attempts;
          published = λ t e. absurd (pending_only id r r' u k t e);
        })
        h);
  releases = λ now id delay message s {rows} done h.
      rw (released_rows now id delay message s.rows done) (
        Kept-update _ _ rs s.rows
          (λ r r' u k. record { event = k.event; attempts = k.attempts; published = k.published })
          h);
}

-- A round loses no event: every row stays with the event that it holds, attempts never go down, and
-- a recorded publication stands, whatever calls fail, provided that the other instances keep this
-- of the rows at the start of the round.
pub run_once-Kept :
    (ch : Channel) (cfg : OutboxConfig) (w : PublisherWorld)
    → Peers ch (λ s. Kept w.shared.rows s.rows)
    → Kept w.shared.rows (run_once ch cfg w).1.shared.rows
run_once-Kept ch cfg w peers =
    run_once-keeps ch cfg (λ s. Kept w.shared.rows s.rows) (Kept-Keeps w.shared.rows) peers w
      (Kept-refl w.shared.rows)
