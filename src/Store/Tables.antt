-- ===== src/Store/Tables.antt =====
-- The tables, and the searches that the statements make in them. A table of transactions or
-- wallets holds each row as the entity that was written to it: a read goes through the row.
use distributed_wallet_api.Prelude.{
  Bool, false, not, ◌&&◌, ◌||◌, ◌==◌, if◌then◌else◌, Option, none, some, List, [], ◌∷◌, ℕ, Uuid,
  Time, Text, text_eq, is_empty,
}
use distributed_wallet_api.Wallet.{Wallet}
use distributed_wallet_api.Transaction.{
  WagerTransaction, is_processed, is_opening, requires_reference,
}
use distributed_wallet_api.Ledger.{WalletLedgerEntry}
use distributed_wallet_api.Events.{Envelope}

pub record InboxRow : Type 0 where
  pub consumer_name : Text
  pub message_id : Text
  pub payload_hash : Text
  pub received_at : Time
  pub completed_at : Option Time
  pub attempts : ℕ

-- The delivery columns of the outbox belong to the publisher, which this state leaves out.
pub record Database : Type 0 where
  pub wallets : List Wallet
  pub transactions : List WagerTransaction
  pub ledger : List WalletLedgerEntry
  pub outbox : List Envelope
  pub inbox : List InboxRow

module _ {ℓ} {A : Type ℓ} where
  -- The first row that meets a condition.
  abbrev pub find_row : (A → Bool) → List A → Option A
  find_row p [] = none
  find_row p (x ∷ xs) = if p x then some x else find_row p xs

  -- `EXISTS`
  abbrev pub any_row : (A → Bool) → List A → Bool
  any_row p [] = false
  any_row p (x ∷ xs) = p x || any_row p xs

  -- `UPDATE … WHERE`
  abbrev pub update_rows : (A → Bool) → (A → A) → List A → List A
  update_rows p f [] = []
  update_rows p f (x ∷ xs) = (if p x then f x else x) ∷ update_rows p f xs

abbrev pub has_wallet_id : Uuid → Wallet → Bool
has_wallet_id id w = w.id == id

abbrev pub has_owner : Uuid → Text → Wallet → Bool
has_owner player currency w = w.player_id == player && text_eq w.balance.currency currency

abbrev pub has_transaction_id : Uuid → WagerTransaction → Bool
has_transaction_id id t = t.id == id

-- NULL equals nothing: an empty provider or identifier, which is stored as NULL, finds no row.
abbrev pub has_external_id : Text → Text → WagerTransaction → Bool
has_external_id provider external t =
    not (is_empty t.provider_id)
    && (not (is_empty t.external_transaction_id)
        && (text_eq t.provider_id provider && text_eq t.external_transaction_id external))

abbrev pub has_key : Text → Text → WagerTransaction → Bool
has_key provider key t =
    not (is_empty t.provider_id)
    && (not (is_empty t.idempotency_key)
        && (text_eq t.provider_id provider && text_eq t.idempotency_key key))

-- A row of the partial index `wager_transactions_single_opening`.
abbrev pub opens_wallet : Uuid → WagerTransaction → Bool
opens_wallet wallet_id t = is_opening t.kind && t.wallet_id == wallet_id

-- A row of the partial index `wager_transactions_single_successful_reversal`.
abbrev pub reverses : Uuid → WagerTransaction → Bool
reverses reference_id t =
    t.reference_transaction_id == reference_id
    && (is_processed t.state && requires_reference t.kind)

abbrev pub is_posting : Uuid → Uuid → WalletLedgerEntry → Bool
is_posting wallet_id transaction_id e =
    e.wallet_id == wallet_id && e.transaction_id == transaction_id

abbrev pub is_message : Text → Text → InboxRow → Bool
is_message consumer message_id r =
    text_eq r.consumer_name consumer && text_eq r.message_id message_id
