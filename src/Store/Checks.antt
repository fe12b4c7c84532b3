-- ===== src/Store/Checks.antt =====
-- The widths of the text columns and the CHECK constraints of migrations 000002, 000003 and 000005.
use distributed_wallet_api.Prelude.{
  Bool, true, false, not, ◌&&◌, ◌||◌, ◌==◌, leb, ltb, if◌then◌else◌, [], ◌∷◌, ℕ, suc, ℤ, ltb_ℤ,
  ◌+ℤ◌, ◌-ℤ◌, Text, length, is_empty, is_nil, before,
}
use distributed_wallet_api.Money.{is_positive, is_negative, is_zero, is_valid_iso4217}
use distributed_wallet_api.Wallet.{Direction, debit_direction, credit_direction}
use distributed_wallet_api.Transaction.{
  WagerTransaction, TransactionKind, loss, pending_reference, TransactionState, kind_is_valid,
  state_is_valid, is_opening, is_processed, is_refused, requires_reference, accepts_reference,
  code_is_empty,
}
use distributed_wallet_api.Ledger.{WalletLedgerEntry}

-- The characters of a UTF-8 text: every byte but the continuation bytes begins one.
char_length : Text → ℕ
char_length [] = 0
char_length (c ∷ s) = let rest = char_length s in if leb 128 c && ltb c 192 then rest else suc rest

is_hex : Text → Bool
is_hex [] = true
is_hex (c ∷ s) = ((leb b'0' c && leb c b'9') || (leb b'a' c && leb c b'f')) && is_hex s

-- `~ '^[0-9a-f]{64}$'`
is_hash : Text → Bool
unfolding is_hex
is_hash t = length t == 64 && is_hex t

-- The widths of the text columns of wager_transactions.
unfoldable pub columns_fit : WagerTransaction → Bool
unfolding char_length
columns_fit t =
    leb (char_length t.provider_id) 64
    && (leb (char_length t.external_transaction_id) 128
        && (leb (char_length t.idempotency_key) 255
            && (leb (char_length t.round_id) 128
                && (leb (char_length t.game_id) 128
                    && leb (char_length t.reference_external_id) 128))))

abbrev is_loss : TransactionKind → Bool
is_loss loss = true
is_loss _ = false

abbrev is_pending_reference : TransactionState → Bool
is_pending_reference pending_reference = true
is_pending_reference _ = false

abbrev same_bool : Bool → Bool → Bool
same_bool true b = b
same_bool false b = not b

-- wager_transactions_amount_policy
abbrev amount_policy : WagerTransaction → Bool
amount_policy t = if is_loss t.kind then is_zero t.money else is_positive t.money

-- wager_transactions_origin_metadata and wager_transactions_payload_hash_format; NULL is the empty
-- text.
origin_metadata : WagerTransaction → Bool
unfolding is_hash
origin_metadata t =
    if is_opening t.kind
    then is_empty t.provider_id
      && (is_empty t.external_transaction_id
          && (is_empty t.idempotency_key
              && (is_empty t.payload_hash && (is_empty t.round_id && is_empty t.game_id))))
    else not (is_empty t.provider_id)
      && (not (is_empty t.external_transaction_id)
          && (not (is_empty t.idempotency_key)
              && (is_hash t.payload_hash
                  && (not (is_empty t.round_id) && not (is_empty t.game_id)))))

-- wager_transactions_reference_policy
abbrev reference_policy : WagerTransaction → Bool
reference_policy t =
    if requires_reference t.kind
    then not (is_empty t.reference_external_id)
    else accepts_reference t.kind || is_empty t.reference_external_id

-- wager_transactions_resolved_reference and wager_transactions_processed_reversal_resolved
abbrev resolution_policy : WagerTransaction → Bool
resolution_policy t =
    (is_nil t.reference_transaction_id
      || (not (is_empty t.reference_external_id) && not (t.reference_transaction_id == t.id)))
    && (not (is_processed t.state)
        || (not (requires_reference t.kind) || not (is_nil t.reference_transaction_id)))

-- The constraints on the outcome: wager_transactions_pending_reference_policy, _failure_code_policy,
-- _result_balance_policy and _result_balance_non_negative.
abbrev outcome_policy : WagerTransaction → Bool
outcome_policy t =
    (not (is_pending_reference t.state) || accepts_reference t.kind)
    && (same_bool (is_refused t.state) (not (code_is_empty t.failure_code))
        && (same_bool (is_processed t.state) (not (is_empty t.result_balance.currency))
            && not (is_negative t.result_balance)))

-- The CHECK constraints of wager_transactions.
unfoldable pub transaction_checks : WagerTransaction → Bool
unfolding origin_metadata
transaction_checks t =
    kind_is_valid t.kind
    && (state_is_valid t.state
        && (is_valid_iso4217 t.money.currency
            && (amount_policy t
                && (origin_metadata t
                    && (reference_policy t
                        && (resolution_policy t
                            && (outcome_policy t && not (before t.updated_at t.created_at))))))))

abbrev equal_ℤ : ℤ → ℤ → Bool
equal_ℤ a b = not (ltb_ℤ a b) && not (ltb_ℤ b a)

-- wallet_ledger_direction_known and wallet_ledger_arithmetic
abbrev ledger_arithmetic : Direction → WalletLedgerEntry → Bool
ledger_arithmetic credit_direction e =
    equal_ℤ e.balance_after.cents (e.balance_before.cents +ℤ e.amount.cents)
ledger_arithmetic debit_direction e =
    equal_ℤ e.balance_after.cents (e.balance_before.cents -ℤ e.amount.cents)
ledger_arithmetic _ e = false

-- The CHECK constraints of wallet_ledger.
unfoldable pub ledger_checks : WalletLedgerEntry → Bool
ledger_checks e =
    is_positive e.amount
    && (not (is_negative e.balance_before)
        && (not (is_negative e.balance_after) && ledger_arithmetic e.direction e))

-- The widths of the text columns of inbox, and the format of its payload hash.
unfoldable pub inbox_checks : Text → Text → Text → Bool
unfolding char_length is_hash
inbox_checks consumer message_id payload_hash =
    leb (char_length consumer) 64 && (leb (char_length message_id) 128 && is_hash payload_hash)
