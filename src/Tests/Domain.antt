-- ===== src/Tests/Domain.antt =====
-- The entities on the scenario.
use distributed_wallet_api.Prelude.{
  text_eq, text_differs, is_blank, trim_space, arith, int_laws, ◌≡◌, ◌≢◌, ◌↔◌, refl, true, some, [],
  ◌∷◌, if◌then◌else◌, ◌||◌, ltb_ℤ, ◌-ℤ◌, ◌+ℤ◌, ok, err, codes, insufficient_funds, invalid_debit,
  invalid_credit, arithmetic_overflow, currency_mismatch, pos,
}
use distributed_wallet_api.Money.{
  Money, validate, is_zero, is_negative, add, subtract, compare_money, equals,
  require_same_currency,
}
use distributed_wallet_api.Money.Arith.{
  AreAlike, IsMoney, checked, fits, add-checked, subtract-checked, mismatch_refused, equals_iff,
}
use distributed_wallet_api.Wallet.{
  validate_identity, credit_direction, debit_direction, debit, credit, restore_wallet,
}
use distributed_wallet_api.Wallet.Movements.{
  IsWallet, moved, described, debit_lem, credit_lem, debit-IsWallet, debit_refused,
  restore_wallet-valid,
}
use distributed_wallet_api.Transaction.{
  WagerTransaction, bet, pending, processed, mark_as_processed, ensure_transition,
  ExternalTransactionParams, validate_external_metadata, validate_transaction_identity,
  validate_amount_for_kind, validate_reference_for_kind, new_external_transaction,
}
use distributed_wallet_api.Transaction.Invariant.{
  received, after, Step, process, IsStorable, Reachable-IsStorable, terminal_absorbs, Frozen,
  Step-Frozen,
}
use distributed_wallet_api.Ledger.{new_ledger_entry, replay_ledger_balance}
use distributed_wallet_api.Ledger.Chain.{
  amount_of, entry_of, new_ledger_entry_moved, replay_ledger_balance-Chain,
}
use distributed_wallet_api.Tests.Scenario.{
  brl, brl-iso, brl-IsMoney, won, won_entry, won_entry-Posted, wallet_with, wallet_with-IsWallet,
}

two_amounts : AreAlike (brl 500) (brl 300)
two_amounts = record {
  left = brl-IsMoney 500 (omega arith);
  right = brl-IsMoney 300 (omega arith);
  same = refl;
}

add-checked_example : add (brl 500) (brl 300) ≡ checked (pos 500 +ℤ pos 300) (codes "BRL")
add-checked_example = add-checked (brl 500) (brl 300) two_amounts

subtract-checked_example : subtract (brl 500) (brl 300) ≡ checked (pos 500 -ℤ pos 300) (codes "BRL")
subtract-checked_example = subtract-checked (brl 500) (brl 300) two_amounts

equals_iff_example : (equals (brl 500) (brl 300) ≡ ok true) ↔ (brl 500 ≡ brl 300)
equals_iff_example = equals_iff (brl 500) (brl 300) two_amounts

abbrev usd : Money
usd = record { cents = pos 300; currency = codes "USD" }

usd-IsMoney : IsMoney usd
usd-IsMoney = record { initialized = refl; in_range = (omega arith, omega arith) }

other_currency : codes "BRL" ≢ codes "USD"
unfolding text_eq
other_currency = text_differs (codes "BRL") (codes "USD") refl

mismatch_refused_example :
    (add (brl 500) usd ≡ err currency_mismatch)
    × (subtract (brl 500) usd ≡ err currency_mismatch)
    × (compare_money (brl 500) usd ≡ err currency_mismatch)
    × (equals (brl 500) usd ≡ err currency_mismatch)
mismatch_refused_example =
    mismatch_refused (brl 500) usd (brl-IsMoney 500 (omega arith)) usd-IsMoney other_currency

debit-IsWallet_example : IsWallet (debit (wallet_with 1000) (brl 500) 20).0
debit-IsWallet_example =
    debit-IsWallet (wallet_with 1000) (brl 500) 20 (wallet_with-IsWallet 1000 (omega arith))
      (omega arith) (brl-IsMoney 500 (omega arith)) refl (omega arith)

debit_lem_example : debit (wallet_with 1000) (brl 500) 20 ≡ (
    if is_zero (brl 500) || is_negative (brl 500)
    then (wallet_with 1000, err invalid_debit)
    else if ltb_ℤ (pos 1000) (pos 500)
    then (wallet_with 1000, err insufficient_funds)
    else let cents = pos 1000 -ℤ pos 500 in
      (
        moved (wallet_with 1000) cents 20,
        ok (described (wallet_with 1000) debit_direction (brl 500) cents 20),
      ))
debit_lem_example =
    debit_lem (wallet_with 1000) (brl 500) 20 (wallet_with-IsWallet 1000 (omega arith))
      (omega arith) (brl-IsMoney 500 (omega arith)) refl (omega arith)

credit_lem_example : credit (wallet_with 1000) (brl 500) 20 ≡ (
    if is_zero (brl 500) || is_negative (brl 500)
    then (wallet_with 1000, err invalid_credit)
    else let cents = pos 1000 +ℤ pos 500 in
      if fits cents
      then (
        moved (wallet_with 1000) cents 20,
        ok (described (wallet_with 1000) credit_direction (brl 500) cents 20),
      )
      else (wallet_with 1000, err arithmetic_overflow))
credit_lem_example =
    credit_lem (wallet_with 1000) (brl 500) 20 (wallet_with-IsWallet 1000 (omega arith))
      (omega arith) (brl-IsMoney 500 (omega arith)) refl (omega arith)

too_much : (debit (wallet_with 100) (brl 500) 20).1 ≡ err insufficient_funds
unfolding debit require_same_currency text_eq compare_money
too_much = refl

debit_refused_example : (debit (wallet_with 100) (brl 500) 20).0 ≡ wallet_with 100
debit_refused_example = debit_refused (wallet_with 100) (brl 500) 20 too_much

accepted :
    restore_wallet 7 8 (brl 5) (pos 3) 1 2
    ≡ ok (record (wallet_with 5) { version = pos 3; updated_at = 2 })
unfolding restore_wallet validate validate_identity
accepted = refl

restore_wallet-valid_example : IsWallet (record (wallet_with 5) { version = pos 3; updated_at = 2 })
restore_wallet-valid_example =
    restore_wallet-valid 7 8 (brl 5) (pos 3) 1 2 (brl-IsMoney 5 (omega arith)).in_range
      (omega arith, omega arith) accepted

replay_ledger_balance-Chain_example :
    replay_ledger_balance (codes "BRL") (some won_entry ∷ [])
    ≡ ok (amount_of (pos 500) (codes "BRL"))
replay_ledger_balance-Chain_example =
    replay_ledger_balance-Chain (codes "BRL") (pos 500) (won_entry ∷ []) brl-iso
      (won_entry-Posted, refl)

new_ledger_entry_moved_example :
    new_ledger_entry 40 41
      (described (wallet_with 1000) debit_direction (brl 500) (pos 1000 -ℤ pos 500) 20)
    ≡ ok (
        entry_of 40 41
          (described (wallet_with 1000) debit_direction (brl 500) (pos 1000 -ℤ pos 500) 20))
new_ledger_entry_moved_example =
    new_ledger_entry_moved 40 41 (wallet_with 1000) debit_direction (brl 500) 20 (λ e. omega arith)
      (λ e. omega arith) (wallet_with-IsWallet 1000 (omega arith)) tt
      (brl-IsMoney 500 (omega arith)) refl (omega arith) (omega arith) (omega int_laws)
      (omega int_laws)

abbrev waiting_bet : WagerTransaction
waiting_bet = record won {
  kind = bet;
  state = pending;
  result_balance = record { cents = pos 0; currency = [] };
}

settled_bet :
    mark_as_processed waiting_bet (brl 700) 30
    ≡ ok (record waiting_bet { state = processed; result_balance = brl 700; updated_at = 30 })
unfolding mark_as_processed ensure_transition validate text_eq
settled_bet = refl

Step-Frozen_example :
    Frozen waiting_bet
      (record waiting_bet { state = processed; result_balance = brl 700; updated_at = 30 })
Step-Frozen_example = Step-Frozen (process (brl 700) 30 settled_bet)

terminal_absorbs_example : ¬ Step won won
terminal_absorbs_example = terminal_absorbs refl

abbrev bet_params : ExternalTransactionParams
bet_params = record {
  id = 100;
  wallet_id = 7;
  player_id = 8;
  provider_id = won.provider_id;
  external_transaction_id = won.external_transaction_id;
  idempotency_key = won.idempotency_key;
  payload_hash = won.payload_hash;
  round_id = won.round_id;
  game_id = won.game_id;
  reference_external_id = [];
  kind = bet;
  money = brl 500;
  now = 10;
}

entered_bet : new_external_transaction bet_params ≡ ok waiting_bet
unfolding new_external_transaction validate_external_metadata validate_transaction_identity
    validate_amount_for_kind validate_reference_for_kind validate is_blank trim_space
entered_bet = refl

Reachable-IsStorable_example :
    IsStorable (record waiting_bet { state = processed; result_balance = brl 700; updated_at = 30 })
Reachable-IsStorable_example =
    Reachable-IsStorable
      (after (received bet_params entered_bet) (process (brl 700) 30 settled_bet))

-- A no-break space is white space, before and after a text.
no_break_space : trim_space (194 ∷ 160 ∷ 65 ∷ 226 ∷ 128 ∷ 137 ∷ []) ≡ 65 ∷ []
unfolding trim_space
no_break_space = refl
