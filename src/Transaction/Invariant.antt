-- ===== src/Transaction/Invariant.antt =====
-- What storage accepts of a transaction, and the methods of the entity as a step relation.
use distributed_wallet_api.Prelude.{
  ◌≡◌, is_empty, refl, nil_uuid, ◌≢◌, arith, true, false, ◌≤◌, ◌<◌, is_blank, trim_space, Uuid,
  Time, ok, is_blank-empty, text_eq_refl,
}
use distributed_wallet_api.Money.{Money, no_money, validate}
use distributed_wallet_api.Transaction.Kind.{
  FailureCode, kind_is_valid, state_is_valid, code_is_blank, code_is_empty, other_code, is_terminal,
}
use distributed_wallet_api.Transaction.Entity.{
  WagerTransaction, ExternalTransactionParams, new_opening_transaction, new_external_transaction,
  validate_transaction_identity, validate_amount_for_kind, validate_reference_for_kind,
}
use distributed_wallet_api.Transaction.Restore.{
  RestoredTransactionParams, restore_transaction, check_origin, check_resolved, check_code,
  check_result,
}
use distributed_wallet_api.Transaction.Transitions.{
  mark_as_processed, reject, fail, mark_as_pending_reference, resolve_reference,
}

-- The columns that hold a transaction.
abbrev pub columns : WagerTransaction → RestoredTransactionParams
columns t = record {
  id = t.id;
  wallet_id = t.wallet_id;
  player_id = t.player_id;
  provider_id = t.provider_id;
  external_transaction_id = t.external_transaction_id;
  idempotency_key = t.idempotency_key;
  payload_hash = t.payload_hash;
  round_id = t.round_id;
  game_id = t.game_id;
  reference_external_id = t.reference_external_id;
  reference_transaction_id = t.reference_transaction_id;
  kind = t.kind;
  money = t.money;
  state = t.state;
  failure_code = t.failure_code;
  result_balance = t.result_balance;
  created_at = t.created_at;
  updated_at = t.updated_at;
}

-- `RestoreTransaction` accepts the columns of the transaction, and rebuilds the same transaction.
abbrev pub IsStorable : WagerTransaction → Type 0
IsStorable t = restore_transaction (columns t) ≡ ok t

-- The checks of `RestoreTransaction`, one by one, and a result balance that is the zero value
-- where there is none.
pub record IsTransaction (t : WagerTransaction) : Type 0 where
  pub kind_known : kind_is_valid t.kind ≡ true
  pub state_known : state_is_valid t.state ≡ true
  pub identity : validate_transaction_identity t.id t.wallet_id t.player_id ≡ ok tt
  pub origin :
      check_origin t.kind t.provider_id t.external_transaction_id t.idempotency_key t.payload_hash
        t.round_id t.game_id
      ≡ ok tt
  pub amount : validate_amount_for_kind t.kind t.money ≡ ok tt
  pub reference : validate_reference_for_kind t.kind t.reference_external_id ≡ ok tt
  pub resolved :
      check_resolved t.kind t.id t.reference_external_id t.reference_transaction_id ≡ ok tt
  pub code : check_code t.state t.failure_code ≡ ok tt
  pub result :
      check_result t.kind t.reference_transaction_id t.money t.state t.result_balance ≡ ok tt
  pub clean : is_empty t.result_balance.currency ≡ true → t.result_balance ≡ no_money
  pub created : 0 < t.created_at
  pub ordered : t.created_at ≤ t.updated_at

pub IsTransaction-IsStorable : (t : WagerTransaction) → IsTransaction t → IsStorable t
unfolding restore_transaction
IsTransaction-IsStorable t h = ground arith

pub mark_as_pending_reference-IsTransaction :
    (t : WagerTransaction) (now : Time) {t' : WagerTransaction}
    → IsTransaction t
    → mark_as_pending_reference t now ≡ ok t'
    → IsTransaction t'
unfolding check_code check_result mark_as_pending_reference
mark_as_pending_reference-IsTransaction t now h e = ground arith

pub resolve_reference-IsTransaction :
    (t : WagerTransaction) (reference : Uuid) (now : Time) {t' : WagerTransaction}
    → IsTransaction t
    → resolve_reference t reference now ≡ ok t'
    → IsTransaction t'
unfolding check_resolved check_result resolve_reference
resolve_reference-IsTransaction t reference now h e = ground arith

code_is_blank-empty : (c : FailureCode) → code_is_blank c ≡ false → code_is_empty c ≡ false
code_is_blank-empty (other_code t) h = is_blank-empty t h
code_is_blank-empty _ h = refl

pub reject-IsTransaction :
    (t : WagerTransaction) (code : FailureCode) (now : Time) {t' : WagerTransaction}
    → IsTransaction t
    → reject t code now ≡ ok t'
    → IsTransaction t'
unfolding check_code check_result reject
reject-IsTransaction t code now h e = ground (arith, code_is_blank-empty code)

fail-IsTransaction :
    (t : WagerTransaction) (code : FailureCode) (now : Time) {t' : WagerTransaction}
    → IsTransaction t
    → fail t code now ≡ ok t'
    → IsTransaction t'
unfolding check_code check_result fail
fail-IsTransaction t code now h e = ground (arith, code_is_blank-empty code)

pub mark_as_processed-IsTransaction :
    (t : WagerTransaction) (balance : Money) (now : Time) {t' : WagerTransaction}
    → IsTransaction t
    → mark_as_processed t balance now ≡ ok t'
    → IsTransaction t'
unfolding check_code check_result mark_as_processed validate
mark_as_processed-IsTransaction t balance now h e = ground arith

pub new_external_transaction-IsTransaction :
    (p : ExternalTransactionParams) {t : WagerTransaction}
    → new_external_transaction p ≡ ok t
    → IsTransaction t
unfolding new_external_transaction check_origin check_resolved check_code check_result
new_external_transaction-IsTransaction p e = ground arith

pub new_opening_transaction-IsTransaction :
    (id wallet player : Uuid) (amount : Money) (now : Time) {t : WagerTransaction}
    → new_opening_transaction id wallet player amount now ≡ ok t
    → IsTransaction t
unfolding new_opening_transaction check_origin check_resolved check_code check_result
    validate_reference_for_kind validate_amount_for_kind validate is_blank trim_space
new_opening_transaction-IsTransaction id wallet player amount now e =
    ground (arith, text_eq_refl amount.currency)

-- The methods of the entity that change its state.
pub data Step (t : WagerTransaction) : WagerTransaction → Type 0 where
  process :
      (balance : Money) (now : Time) {t' : WagerTransaction}
      → mark_as_processed t balance now ≡ ok t'
      → Step t t'
  refuse :
      (code : FailureCode) (now : Time) {t' : WagerTransaction}
      → reject t code now ≡ ok t'
      → Step t t'
  abort :
      (code : FailureCode) (now : Time) {t' : WagerTransaction}
      → fail t code now ≡ ok t'
      → Step t t'
  park : (now : Time) {t' : WagerTransaction} → mark_as_pending_reference t now ≡ ok t' → Step t t'
  resolve :
      (reference : Uuid) (now : Time) {t' : WagerTransaction}
      → resolve_reference t reference now ≡ ok t'
      → Step t t'

-- A transaction in some state of its life: a constructor returned it, or a method changed it.
pub data Reachable : WagerTransaction → Type 0 where
  received :
      (p : ExternalTransactionParams) {t : WagerTransaction}
      → new_external_transaction p ≡ ok t
      → Reachable t
  opened :
      (id wallet player : Uuid) (amount : Money) (now : Time) {t : WagerTransaction}
      → new_opening_transaction id wallet player amount now ≡ ok t
      → Reachable t
  after : {t t' : WagerTransaction} → Reachable t → Step t t' → Reachable t'

pub Step-IsTransaction : {t t' : WagerTransaction} → Step t t' → IsTransaction t → IsTransaction t'
Step-IsTransaction {t} (process b now e) h = mark_as_processed-IsTransaction t b now h e
Step-IsTransaction {t} (refuse c now e) h = reject-IsTransaction t c now h e
Step-IsTransaction {t} (abort c now e) h = fail-IsTransaction t c now h e
Step-IsTransaction {t} (park now e) h = mark_as_pending_reference-IsTransaction t now h e
Step-IsTransaction {t} (resolve r now e) h = resolve_reference-IsTransaction t r now h e

pub Reachable-IsTransaction : {t : WagerTransaction} → Reachable t → IsTransaction t
Reachable-IsTransaction (received p e) = new_external_transaction-IsTransaction p e
Reachable-IsTransaction (opened id wallet player amount now e) =
    new_opening_transaction-IsTransaction id wallet player amount now e
Reachable-IsTransaction (after r s) = Step-IsTransaction s (Reachable-IsTransaction r)

-- Every transaction that the two constructors and the five methods can produce is one that
-- `RestoreTransaction` accepts from its columns and rebuilds unchanged.
pub Reachable-IsStorable : {t : WagerTransaction} → Reachable t → IsStorable t
Reachable-IsStorable {t} r = IsTransaction-IsStorable t (Reachable-IsTransaction r)

-- No method changes a transaction whose state is terminal: each of the five returns an error.
pub terminal_absorbs : {t t' : WagerTransaction} → is_terminal t.state ≡ true → ¬ Step t t'
unfolding mark_as_processed reject fail mark_as_pending_reference resolve_reference
terminal_absorbs {t} h (process b now e) = ground arith
terminal_absorbs {t} h (refuse c now e) = ground arith
terminal_absorbs {t} h (abort c now e) = ground arith
terminal_absorbs {t} h (park now e) = ground arith
terminal_absorbs {t} h (resolve r now e) = ground arith

-- What no method may change: the identity, the provider metadata, the money and the creation.
pub record Frozen (t t' : WagerTransaction) : Type 0 where
  pub id : t'.id ≡ t.id
  pub wallet : t'.wallet_id ≡ t.wallet_id
  pub player : t'.player_id ≡ t.player_id
  pub provider : t'.provider_id ≡ t.provider_id
  pub external : t'.external_transaction_id ≡ t.external_transaction_id
  pub key : t'.idempotency_key ≡ t.idempotency_key
  pub hash : t'.payload_hash ≡ t.payload_hash
  pub round : t'.round_id ≡ t.round_id
  pub game : t'.game_id ≡ t.game_id
  pub kind : t'.kind ≡ t.kind
  pub money : t'.money ≡ t.money
  pub reference : t'.reference_external_id ≡ t.reference_external_id
  pub created : t'.created_at ≡ t.created_at
  pub later : t.updated_at ≤ t'.updated_at
  pub resolved :
      t.reference_transaction_id ≢ nil_uuid
      → t'.reference_transaction_id ≡ t.reference_transaction_id

-- A method that succeeds keeps the identity, the provider metadata, the kind, the money, the
-- reference sent by the provider, the creation and a reference once resolved, and moves the instant
-- of the last update only forward.
pub Step-Frozen : {t t' : WagerTransaction} → Step t t' → Frozen t t'
unfolding mark_as_processed reject fail mark_as_pending_reference resolve_reference
Step-Frozen {t} (process b now e) = ground arith
Step-Frozen {t} (refuse c now e) = ground arith
Step-Frozen {t} (abort c now e) = ground arith
Step-Frozen {t} (park now e) = ground arith
Step-Frozen {t} (resolve r now e) = ground arith
