-- ===== src/Tests/Outbox.antt =====
-- A round of the outbox publisher, on one event that is due.
use distributed_wallet_api.Prelude.{
  ◌+◌, ◌≡◌, refl, true, false, arith, none, some, [], ◌∷◌, pos, codes,
}
use distributed_wallet_api.Events.{
  Envelope, RestoredEnvelopeParams, wallet_balance_changed, wallet_aggregate, raw_message,
}
use distributed_wallet_api.Store.{any_row}
use distributed_wallet_api.Delivery.{
  OutboxRow, PublisherWorld, Channel, OutboxConfig, has_event_id, claimed_rows, claimed_table,
  chosen_rows, run_once,
}
use distributed_wallet_api.Delivery.Safety.{Confirmed, Kept, run_once-Confirmed, run_once-Kept}
use distributed_wallet_api.Delivery.Claims.{claim_excludes}

abbrev stored_event : RestoredEnvelopeParams
stored_event = record {
  id = 40;
  event_type = wallet_balance_changed;
  version = pos 1;
  aggregate_type = wallet_aggregate;
  aggregate_id = 7;
  correlation_id = 5;
  causation_id = 0;
  occurred_at = 10;
  payload = codes "{}";
}

abbrev restored_event : Envelope
restored_event = record {
  id = 40;
  event_type = wallet_balance_changed;
  version = pos 1;
  aggregate_type = wallet_aggregate;
  aggregate_id = 7;
  correlation_id = 5;
  causation_id = 0;
  occurred_at = 10;
  payload = some (raw_message (codes "{}"));
}

abbrev due_row : OutboxRow
due_row = record {
  event = stored_event;
  attempts = 0;
  next_attempt_at = 10;
  last_error = none;
  locked_by = none;
  locked_until = none;
  published_at = none;
}

abbrev start : PublisherWorld
start = record { shared = record { rows = due_row ∷ []; sent = [] }; calls = 0 }

abbrev channel : Channel
channel = record {
  clock = λ n. 20 + n;
  held = λ n id. false;
  fails = λ n. false;
  accepts = λ n. true;
  cause = λ n. [];
  cancelled = λ n. false;
  others = λ n s. s;
  json_valid = λ t. true;
}

abbrev config : OutboxConfig
config = record {
  publisher_id = codes "w1";
  batch_size = 10;
  claim_lease = 30;
  retry_base_delay = pos 1;
  retry_max_delay = pos 60;
}

run_once-Confirmed_example : Confirmed (run_once channel config start).1.shared
run_once-Confirmed_example =
    run_once-Confirmed channel config start
      (record { keep = λ n s h. h; unsend_nothing = λ n id s h. h }) ((λ e. cc), tt)

run_once-Kept_example : Kept (due_row ∷ []) (run_once channel config start).1.shared.rows
run_once-Kept_example =
    run_once-Kept channel config start
      (record { keep = λ n s h. h; unsend_nothing = λ n id s h. h })

taken :
    any_row (has_event_id 40) (claimed_rows (λ id. false) 20 (codes "w1") 10 30 (due_row ∷ []))
    ≡ true
unfolding claimed_rows chosen_rows
taken = refl

claim_excludes_example :
    any_row (has_event_id 40) (
      claimed_rows
        (λ id. false)
        49
        (codes "w2")
        10
        30
        (claimed_table (λ id. false) 20 (codes "w1") 10 30 (due_row ∷ [])))
    ≡ false
claim_excludes_example =
    claim_excludes (λ id. false) (λ id. false) 20 49 (codes "w1") (codes "w2") 10 10 30 30
      (due_row ∷ []) 40 (omega arith) taken
