-- ===== src/Prelude/Results.antt =====
-- Fallible code: a value or an error. An error wrapped by `fmt.Errorf` stands for the sentinel
-- that `errors.Is` finds in it first; the text of its message is not modelled.
use mathlib.Core.Bool.{Bool, true, false}

pub data Error : Type 0 where
  -- domain/money.go
  invalid_currency_format invalid_amount negative_amount currency_mismatch : Error
  arithmetic_overflow uninitialized_money : Error
  -- domain/wallet.go
  insufficient_funds invalid_debit invalid_credit invalid_wallet_id invalid_player_id : Error
  invalid_timestamp negative_initial_balance invalid_wallet_state : Error
  -- domain/wager-transaction.go
  unknown_transaction_kind unknown_transaction_state invalid_external_kind : Error
  transaction_terminal invalid_transaction_id invalid_transaction_amount : Error
  missing_external_metadata missing_reference reference_not_applicable : Error
  reference_already_resolved unresolved_reference missing_failure_code : Error
  invalid_transaction_record : Error
  -- domain/wallet-ledger-entry.go
  invalid_ledger_entry_id invalid_direction invalid_ledger_amount negative_ledger_balance : Error
  ledger_balance_mismatch nil_ledger_entry : Error
  -- events
  unknown_event_type unknown_aggregate_type aggregate_type_mismatch invalid_event_id : Error
  invalid_event_version invalid_aggregate_id invalid_correlation_id invalid_occurred_at : Error
  missing_event_data invalid_event_data unexpected_state missing_result_balance : Error
  invalid_wallet_version invalid_change_amount negative_event_balance : Error
  -- events/inbound-message.go
  invalid_message missing_message_id unknown_message_type missing_message_data : Error
  missing_provider_id missing_external_id missing_idempotency_key missing_round_id : Error
  missing_game_id : Error
  -- pkg/idempotency
  empty_payload invalid_payload payload_not_object no_business_fields : Error
  -- infra/http: an answer 400 to a request that is not understood
  invalid_request : Error
  -- infra/messaging
  permanent_message : Error
  -- usecase
  wallet_not_found transaction_not_found concurrent_update wallet_already_exists : Error
  payload_conflict message_conflict invalid_command unreversible_reference : Error
  -- any error of the database or of the network that the code only passes on
  infrastructure : Error

pub data Result {ℓ} (A : Type ℓ) : Type ℓ where
  ok : A → Result A
  err : Error → Result A

-- `if c { return e }`
abbrev pub fail_if : Bool → Error → Result (Unit {0})
fail_if true reason = err reason
fail_if false reason = ok tt

-- `if err != nil { return err }`
infixl 5 ◌>>=◌
abbrev pub ◌>>=◌ {ℓ κ} : {A : Type ℓ} {B : Type κ} → Result A → (A → Result B) → Result B
err reason >>= next = err reason
ok value >>= next = next value

infixl 5 ◌>>◌
abbrev pub ◌>>◌ {ℓ} : {A : Type ℓ} → Result (Unit {0}) → Result A → Result A
check >> rest = check >>= λ _. rest
