-- ===== src/Delivery/Rows.antt =====
-- `OutboxStore` (infra/postgres/outbox-repository.go): the delivery columns of the outbox, and the
-- statements of the publishers on them. `now` is the clock of the database.
use distributed_wallet_api.Prelude.{
  ℕ, ◌+◌, ◌-◌, Bool, true, false, not, ◌&&◌, ◌||◌, ltb, leb, ◌==◌, if◌then◌else◌, Option, none,
  some, List, [], ◌∷◌, take, ℤ, pos, negsuc, Text, Uuid, Time, Result, ok, infrastructure, ◌>>=◌,
  ◌>>◌, fail_if,
}
use distributed_wallet_api.Events.{Envelope, RestoredEnvelopeParams, restore_envelope}
use distributed_wallet_api.Store.{any_row, update_rows, nullable_text}

pub record OutboxRow : Type 0 where
  pub event : RestoredEnvelopeParams
  pub attempts : ℕ
  pub next_attempt_at : Time
  pub last_error : Option Text
  pub locked_by : Option Text
  pub locked_until : Option Time
  pub published_at : Option Time

pub record ClaimedEvent : Type 0 where
  pub envelope : Envelope
  pub attempts : ℕ

abbrev pub has_event_id : Uuid → OutboxRow → Bool
has_event_id id r = r.event.id == id

-- `published_at IS NULL`
abbrev pub is_pending : OutboxRow → Bool
is_pending r = elim r.published_at [ none ↦ true | some _ ↦ false ]

abbrev pub has_expired : Time → Option Time → Bool
has_expired now none = true
has_expired now (some locked_until) = leb locked_until now

-- The condition of the claim.
abbrev pub is_due : Time → OutboxRow → Bool
is_due now r = is_pending r && (leb r.next_attempt_at now && has_expired now r.locked_until)

-- The rows that are due and that no concurrent statement holds (`SKIP LOCKED`).
abbrev pub due_rows : (Uuid → Bool) → Time → List OutboxRow → List OutboxRow
due_rows held now [] = []
due_rows held now (r ∷ rs) =
    if is_due now r && not (held r.event.id) then r ∷ due_rows held now rs else due_rows held now rs

-- `ORDER BY next_attempt_at, event_id`
abbrev pub precedes : OutboxRow → OutboxRow → Bool
precedes r s =
    ltb r.next_attempt_at s.next_attempt_at
    || (r.next_attempt_at == s.next_attempt_at && leb r.event.id s.event.id)

abbrev pub insert_row : OutboxRow → List OutboxRow → List OutboxRow
insert_row r [] = r ∷ []
insert_row r (s ∷ rs) = if precedes r s then r ∷ s ∷ rs else s ∷ insert_row r rs

abbrev pub sort_rows : List OutboxRow → List OutboxRow
sort_rows [] = []
sort_rows (r ∷ rs) = insert_row r (sort_rows rs)

-- The rows of the subquery.
unfoldable pub chosen_rows : (Uuid → Bool) → Time → ℕ → List OutboxRow → List OutboxRow
chosen_rows held now limit rows = take limit (sort_rows (due_rows held now rows))

-- `event_id IN (…)`
abbrev pub is_chosen : List OutboxRow → OutboxRow → Bool
is_chosen chosen r = any_row (has_event_id r.event.id) chosen

abbrev pub leased : Text → Time → OutboxRow → OutboxRow
leased publisher_id until r = record r {
  locked_by = some publisher_id;
  locked_until = some until;
  attempts = r.attempts + 1;
}

-- The rows that `RETURNING` gives back, here in the order of the table.
abbrev pub returned : (OutboxRow → Bool) → (OutboxRow → OutboxRow) → List OutboxRow → List OutboxRow
returned p f [] = []
returned p f (r ∷ rs) = if p r then f r ∷ returned p f rs else returned p f rs

-- The loop over the returned rows, which ends at the first that `RestoreEnvelope` refuses.
unfoldable pub restore_claimed : (Text → Bool) → List OutboxRow → Result (List ClaimedEvent)
restore_claimed json_valid [] = ok []
restore_claimed json_valid (r ∷ rs) = do
  envelope ← restore_envelope json_valid r.event
  rest ← restore_claimed json_valid rs
  ok (record { envelope = envelope; attempts = r.attempts } ∷ rest)

module _ (held : Uuid → Bool) (now : Time) (publisher_id : Text) (limit : ℕ) (lease : ℕ)
    (rows : List OutboxRow) where
  -- The table after `ClaimPending`.
  unfoldable pub claimed_table : List OutboxRow
  claimed_table =
      update_rows (is_chosen (chosen_rows held now limit rows)) (leased publisher_id (now + lease))
        rows

  -- The rows that it returns.
  unfoldable pub claimed_rows : List OutboxRow
  claimed_rows =
      returned (is_chosen (chosen_rows held now limit rows)) (leased publisher_id (now + lease))
        rows

abbrev pub is_unpublished : Uuid → OutboxRow → Bool
is_unpublished id r = has_event_id id r && is_pending r

abbrev pub confirmed : Time → OutboxRow → OutboxRow
confirmed now r = record r { published_at = some now; locked_by = none; locked_until = none }

-- `MarkPublished`, with the constraint `outbox_published_after_occurred`.
unfoldable pub mark_published : Time → Uuid → List OutboxRow → Result (List OutboxRow)
mark_published now id rows = do
  fail_if (any_row (λ r. is_unpublished id r && ltb now r.event.occurred_at) rows) infrastructure
  ok (update_rows (is_unpublished id) (confirmed now) rows)

-- `now() + make_interval(…)`; no instant is before zero.
abbrev pub later : Time → ℤ → Time
later now (pos delay) = now + delay
later now (negsuc delay) = now - (delay + 1)

abbrev pub released : Time → Text → OutboxRow → OutboxRow
released next message r = record r {
  next_attempt_at = next;
  locked_by = none;
  locked_until = none;
  last_error = nullable_text message;
}

-- `Reschedule`
unfoldable pub reschedule : Time → Uuid → ℤ → Text → List OutboxRow → Result (List OutboxRow)
reschedule now id delay message rows =
    ok (update_rows (is_unpublished id) (released (later now delay) message) rows)
