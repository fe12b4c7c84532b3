-- ===== src/Resume.antt =====
-- Reversals that wait for their reference (cmd/internal/usecase/resume-pending-reference.go and
-- `commandOf` of cmd/internal/infra/postgres/pending-reference-store.go).
pub mod Safety
use distributed_wallet_api.Prelude.{
  ℕ, Bool, true, false, if◌then◌else◌, [], ◌∷◌, Uuid, nil_uuid, is_nil, Time,
}
use distributed_wallet_api.Money.{no_money}
use distributed_wallet_api.Transaction.{WagerTransaction, is_terminal, reject, reference_not_found}
use distributed_wallet_api.Events.{Metadata, new_wager_transaction_rejected}
use distributed_wallet_api.Store.{
  Ports, M, pure, lift, sql, ◌>>=◌, ◌>>◌, new_id, now_of, within, find_by_id, update_transaction,
}
use distributed_wallet_api.Process.{
  WagerCommand, WagerResult, replay_of, save_events, metadata_of, execute,
}

pub record PendingReference : Type 0 where
  pub transaction_id : Uuid
  pub attempts : ℕ
  pub created_at : Time
  pub command : WagerCommand

-- The zero value of `events.Metadata`, which `commandOf` leaves.
abbrev no_metadata : Metadata
no_metadata = record { correlation_id = nil_uuid; causation_id = nil_uuid }

unfoldable pub command_of : WagerTransaction → WagerCommand
command_of t = record {
  provider_id = t.provider_id;
  external_transaction_id = t.external_transaction_id;
  idempotency_key = t.idempotency_key;
  payload_hash = t.payload_hash;
  player_id = t.player_id;
  wallet_id = t.wallet_id;
  round_id = t.round_id;
  game_id = t.game_id;
  kind = t.kind;
  money = t.money;
  reference_external_id = t.reference_external_id;
  metadata = no_metadata;
}

module _ (ports : Ports) where
  -- `Resume`
  unfoldable pub resume_pending : PendingReference → M WagerResult
  resume_pending pending = execute ports pending.command

  abbrev pub expire_stored : Time → Metadata → WagerTransaction → M WagerResult
  expire_stored now meta t = if is_terminal t.state then pure (replay_of t) else do
    t' ← lift (reject t reference_not_found now)
    sql ports (update_transaction t')
    save_events ports ((λ id. new_wager_transaction_rejected id t' meta) ∷ [])
    pure (record {
      transaction_id = t'.id;
      state = t'.state;
      balance = no_money;
      failure_code = reference_not_found;
      replayed = false;
    })

  -- The function that `Expire` runs in the SQL transaction.
  unfoldable pub expire_body : Uuid → Time → Metadata → M WagerResult
  expire_body transaction_id now meta =
      sql ports (find_by_id transaction_id) >>= expire_stored now meta

  -- `Expire`
  unfoldable pub expire : Uuid → Metadata → M WagerResult
  expire transaction_id meta = do
    now ← now_of ports
    meta' ← metadata_of ports meta
    within ports (expire_body transaction_id now meta')
