-- ===== src/Transaction/Kind.antt =====
-- Kinds, states and failure codes. Go keeps them as strings: `other` stands for every text that
-- is not one of the named constants, the empty one included.
use distributed_wallet_api.Prelude.{
  Bool, true, false, not, ◌&&◌, ◌||◌, Option, none, some, Text, [], is_blank, is_empty,
}
use distributed_wallet_api.Wallet.{Direction, debit_direction, credit_direction}

pub data TransactionKind : Type 0 where
  opening bet win loss refund rollback : TransactionKind
  other_kind : Text → TransactionKind

-- `TransactionKind.IsValid`
abbrev pub kind_is_valid : TransactionKind → Bool
kind_is_valid (other_kind _) = false
kind_is_valid _ = true

abbrev pub is_opening : TransactionKind → Bool
is_opening opening = true
is_opening _ = false

abbrev pub is_external : TransactionKind → Bool
is_external k = kind_is_valid k && not (is_opening k)

-- `Direction`: `none` stands for the second result `false`.
unfoldable pub kind_direction : TransactionKind → Option Direction
kind_direction bet = some debit_direction
kind_direction opening = some credit_direction
kind_direction win = some credit_direction
kind_direction refund = some credit_direction
kind_direction _ = none

abbrev pub requires_reference : TransactionKind → Bool
requires_reference refund = true
requires_reference rollback = true
requires_reference _ = false

abbrev is_win : TransactionKind → Bool
is_win win = true
is_win _ = false

abbrev pub accepts_reference : TransactionKind → Bool
accepts_reference k = requires_reference k || is_win k

abbrev pub requires_positive_amount : TransactionKind → Bool
requires_positive_amount loss = false
requires_positive_amount _ = true

pub data TransactionState : Type 0 where
  pending pending_reference processed rejected failed : TransactionState
  other_state : Text → TransactionState

-- `TransactionState.IsValid`
abbrev pub state_is_valid : TransactionState → Bool
state_is_valid (other_state _) = false
state_is_valid _ = true

abbrev pub is_processed : TransactionState → Bool
is_processed processed = true
is_processed _ = false

abbrev pub is_pending_reference : TransactionState → Bool
is_pending_reference pending_reference = true
is_pending_reference _ = false

abbrev pub is_refused : TransactionState → Bool
is_refused rejected = true
is_refused failed = true
is_refused _ = false

abbrev pub is_terminal : TransactionState → Bool
is_terminal s = is_processed s || is_refused s

pub data FailureCode : Type 0 where
  insufficient_funds_code reversal_insufficient_funds reference_not_found : FailureCode
  reference_not_processed reference_mismatch already_reversed : FailureCode
  wallet_not_found_code currency_mismatch_code internal_error : FailureCode
  other_code : Text → FailureCode

-- The empty text, which stands for no failure code.
abbrev pub no_code : FailureCode
no_code = other_code []

-- `code == ""`
abbrev pub code_is_empty : FailureCode → Bool
code_is_empty (other_code t) = is_empty t
code_is_empty _ = false

-- `strings.TrimSpace(string(code)) == ""`
abbrev pub code_is_blank : FailureCode → Bool
code_is_blank (other_code t) = is_blank t
code_is_blank _ = false
