-- ===== src/Ledger/Chain.antt =====
-- A wallet's history as a chain of movements from one balance to another, beside the replay of
-- wallet-ledger-entry.go and the entries that `NewLedgerEntry` returns.
use distributed_wallet_api.Prelude.{
  subst, ◌≡◌, sym, refl, ◌≢◌, true, Option, some, List, [], ◌∷◌, map, arith, ℤ, pos, ◌+ℤ◌, ◌-ℤ◌,
  ◌≤ℤ◌, -ℤ_parts, int_laws, Text, is_empty, Uuid, nil_uuid, ok, ◌<◌, ◌++◌, Time, ◌>>=◌, false, ◌∙◌,
}
use distributed_wallet_api.Money.{
  Money, max_int64, is_valid_iso4217, zero_money, add, negate, validate, equals,
}
use distributed_wallet_api.Money.Arith.{
  IsMoney, AreAlike, checked, add-checked, subtract-checked, negate-checked, equals_iff,
}
use distributed_wallet_api.Wallet.{
  Direction, debit_direction, credit_direction, other, Wallet, BalanceChange,
}
use distributed_wallet_api.Wallet.Movements.{IsWallet, described}
use distributed_wallet_api.Ledger.Entry.{
  WalletLedgerEntry, RestoredLedgerEntryParams, build_ledger_entry, new_ledger_entry,
  restore_ledger_entry, expected_balance, is_known,
}
use distributed_wallet_api.Ledger.Replay.{signed, replay_from, replay_ledger_balance}

-- The balance that a movement leads to.
abbrev pub shifted : Direction → ℤ → ℤ → ℤ
shifted debit_direction from amount = from -ℤ amount
shifted credit_direction from amount = from +ℤ amount
shifted (other _) from amount = from

abbrev pub IsKnown : Direction → Type 0
IsKnown (other _) = ⊥
IsKnown _ = Unit {0}

abbrev pub amount_of : ℤ → Text → Money
amount_of cents currency = record { cents = cents; currency = currency }

-- The columns of an entry, as the storage gives them back.
abbrev pub params_of : WalletLedgerEntry → RestoredLedgerEntryParams
params_of e = record {
  id = e.id;
  wallet_id = e.wallet_id;
  transaction_id = e.transaction_id;
  direction = e.direction;
  amount = e.amount;
  balance_before = e.balance_before;
  balance_after = e.balance_after;
  created_at = e.created_at;
}

-- The entry moves a positive amount of the currency from the balance `from` to the one that it
-- records after, both of them balances that a wallet may hold.
pub record Posted (currency : Text) (from : ℤ) (e : WalletLedgerEntry) : Type 0 where
  pub known : IsKnown e.direction
  pub currency_same : e.amount.currency ≡ currency
  pub positive : pos 1 ≤ℤ e.amount.cents
  pub fits : e.amount.cents ≤ℤ max_int64
  pub before : e.balance_before ≡ amount_of from currency
  pub after : e.balance_after ≡ amount_of (shifted e.direction from e.amount.cents) currency
  pub not_negative : pos 0 ≤ℤ e.balance_after.cents
  pub bound : e.balance_after.cents ≤ℤ max_int64
  pub restored : restore_ledger_entry (params_of e) ≡ ok e

-- The entries lead from one balance to another, each starting where the one before it ended.
abbrev pub Chain : Text → ℤ → List WalletLedgerEntry → ℤ → Type 0
Chain currency from [] to = from ≡ to
Chain currency from (e ∷ es) to =
    Posted currency from e × Chain currency e.balance_after.cents es to

add_negated : (a b : ℤ) → a +ℤ (pos 0 -ℤ b) ≡ a -ℤ b
add_negated a b = omega int_laws

checked_fits : (x : ℤ) (c : Text) → pos 0 ≤ℤ x → x ≤ℤ max_int64 → checked x c ≡ ok (amount_of x c)
checked_fits x c low high = ground arith

-- One round of the replay.
replay_round :
    (d : Direction) (m : Money) (c : Text) (from : ℤ)
    → IsKnown d
    → is_empty c ≡ false
    → m.currency ≡ c
    → pos 1 ≤ℤ m.cents
    → m.cents ≤ℤ max_int64
    → pos 0 ≤ℤ from
    → from ≤ℤ max_int64
    → pos 0 ≤ℤ shifted d from m.cents
    → shifted d from m.cents ≤ℤ max_int64
    → (signed d m >>= λ s. add (amount_of from c) s) ≡ ok (amount_of (shifted d from m.cents) c)
replay_round debit_direction m c from k ne same one fits low high low' high' =
    let negated : negate m ≡ ok (amount_of (pos 0 -ℤ m.cents) m.currency) =
      negate-checked m (ground arith) ∙ ground (arith, -ℤ_parts (pos 0) m.cents) in
    rw
      (
        negated,
        same,
        add-checked (amount_of from c) (amount_of (pos 0 -ℤ m.cents) c)
            (ground (arith, -ℤ_parts (pos 0) m.cents)),
      )
      (rw (add_negated from m.cents) (checked_fits (from -ℤ m.cents) c low' high'))
replay_round credit_direction m c from k ne same one fits low high low' high' =
    rw (add-checked (amount_of from c) m (ground arith)) (ground arith)
replay_round (other _) m c from k ne same one fits low high low' high' = elim k [ ]

replay-Posted :
    (c : Text) (from : ℤ) (e : WalletLedgerEntry) (es : List (Option WalletLedgerEntry))
    → is_empty c ≡ false
    → pos 0 ≤ℤ from
    → from ≤ℤ max_int64
    → Posted c from e
    → replay_from (amount_of from c) (some e ∷ es) ≡ replay_from e.balance_after es
unfolding replay_from
replay-Posted c from e es ne low high p =
    let low' : pos 0 ≤ℤ shifted e.direction from e.amount.cents = rw p.after at p.not_negative in
    let high' : shifted e.direction from e.amount.cents ≤ℤ max_int64 = rw p.after at p.bound in
    rw (p.after) (
      ground (
        arith,
        replay_round e.direction e.amount c from p.known ne p.currency_same p.positive p.fits low
            high low' high',
      ))

after_currency :
    (c : Text) (from : ℤ) (e : WalletLedgerEntry)
    → Posted c from e
    → e.balance_after ≡ amount_of e.balance_after.cents c
after_currency c from e p = rw p.after

pub iso4217-not_empty : (c : Text) → is_valid_iso4217 c ≡ true → is_empty c ≡ false
unfolding is_valid_iso4217
iso4217-not_empty [] h = cc
iso4217-not_empty (_ ∷ _) h = refl

-- The replay of a chain, from any balance that a wallet may hold, ends at the chain's end without
-- an overflow on the way.
replay_from-Chain :
    (c : Text) (from to : ℤ) (es : List WalletLedgerEntry)
    → is_empty c ≡ false
    → pos 0 ≤ℤ from
    → from ≤ℤ max_int64
    → Chain c from es to
    → replay_from (amount_of from c) (map some es) ≡ ok (amount_of to c)
unfolding replay_from
replay_from-Chain c from to [] ne low high h = rw h
replay_from-Chain c from to (e ∷ es) ne low high (p, h) =
    replay-Posted c from e (map some es) ne low high p
    ∙ (rw (after_currency c from e p)
        (replay_from-Chain c e.balance_after.cents to es ne p.not_negative p.bound h))

-- `ReplayLedgerBalance` over entries that lead from zero to a balance, each from the balance that
-- the one before it recorded and none of them negative, in a currency of three capital letters,
-- returns that balance, without an overflow on the way.
pub replay_ledger_balance-Chain :
    (c : Text) (to : ℤ) (es : List WalletLedgerEntry)
    → is_valid_iso4217 c ≡ true
    → Chain c (pos 0) es to
    → replay_ledger_balance c (map some es) ≡ ok (amount_of to c)
unfolding replay_ledger_balance zero_money
replay_ledger_balance-Chain c to es iso h =
    rw iso
      (replay_from-Chain c (pos 0) to es (iso4217-not_empty c iso) (omega arith) (omega arith) h)

-- A further movement prolongs the chain.
pub Chain-append :
    (c : Text) (from middle : ℤ) (es : List WalletLedgerEntry) (e : WalletLedgerEntry)
    → Chain c from es middle
    → Posted c middle e
    → Chain c from (es ++ e ∷ []) e.balance_after.cents
Chain-append c from middle [] e h p = (rw h p, refl)
Chain-append c from middle (x ∷ es) e (q, h) p =
    (q, Chain-append c x.balance_after.cents middle es e h p)

-- The entry of a movement.
abbrev pub entry_of : Uuid → Uuid → BalanceChange → WalletLedgerEntry
entry_of id transaction_id change = record {
  id = id;
  wallet_id = change.wallet_id;
  transaction_id = transaction_id;
  direction = change.direction;
  amount = change.amount;
  balance_before = change.balance_before;
  balance_after = change.balance_after;
  created_at = change.occurred_at;
}

build_ledger_entry-params :
    (p : RestoredLedgerEntryParams) {e : WalletLedgerEntry}
    → build_ledger_entry p ≡ ok e
    → params_of e ≡ p
unfolding build_ledger_entry
build_ledger_entry-params p h = ground arith

-- The storage accepts the columns of every entry that `NewLedgerEntry` returned, and rebuilds it.
pub new_ledger_entry-restored :
    (id transaction_id : Uuid) (change : BalanceChange) (e : WalletLedgerEntry)
    → new_ledger_entry id transaction_id change ≡ ok e
    → restore_ledger_entry (params_of e) ≡ ok e
unfolding new_ledger_entry restore_ledger_entry
new_ledger_entry-restored id transaction_id change e h =
    subst (λ p. build_ledger_entry p ≡ ok e)
      (sym (build_ledger_entry-params (params_of (entry_of id transaction_id change)) h)) h

expected_balance-shifted :
    (d : Direction) (m amount : Money)
    → IsKnown d
    → AreAlike m amount
    → pos 0 ≤ℤ shifted d m.cents amount.cents
    → shifted d m.cents amount.cents ≤ℤ max_int64
    → expected_balance d m amount ≡ ok (amount_of (shifted d m.cents amount.cents) m.currency)
unfolding expected_balance
expected_balance-shifted debit_direction m amount k a low high =
    subtract-checked m amount a ∙ checked_fits (m.cents -ℤ amount.cents) m.currency low high
expected_balance-shifted credit_direction m amount k a low high =
    add-checked m amount a ∙ checked_fits (m.cents +ℤ amount.cents) m.currency low high
expected_balance-shifted (other _) m amount k a low high = elim k [ ]

-- The two directions pass the test of `buildLedgerEntry`.
is_known_lem : (d : Direction) → IsKnown d → is_known d ≡ true
is_known_lem debit_direction k = refl
is_known_lem credit_direction k = refl
is_known_lem (other _) k = elim k [ ]

module _ (id transaction_id : Uuid) (w : Wallet) (d : Direction) (amount : Money) (now : Time)
    (has_id : id ≢ nil_uuid) (has_transaction : transaction_id ≢ nil_uuid) (valid : IsWallet w)
    (known : IsKnown d) (money : IsMoney amount) (same : w.balance.currency ≡ amount.currency)
    (one : pos 1 ≤ℤ amount.cents) (timed : 0 < now)
    (low : pos 0 ≤ℤ shifted d w.balance.cents amount.cents)
    (high : shifted d w.balance.cents amount.cents ≤ℤ max_int64) where
  abbrev change : BalanceChange
  change = described w d amount (shifted d w.balance.cents amount.cents) now

  alike : AreAlike w.balance amount
  alike = record { left = valid.money; right = money; same = same }

  -- `NewLedgerEntry` accepts the change of every movement that takes the balance of a well-formed
  -- wallet to one in the int64 range and not negative, and the entry records it field for field.
  -- The identifiers are not nil, the amount is positive and of the currency of the wallet, and the
  -- clock is set.
  pub new_ledger_entry_moved :
      new_ledger_entry id transaction_id change ≡ ok (entry_of id transaction_id change)
  unfolding new_ledger_entry validate
  new_ledger_entry_moved =
      let after = amount_of (shifted d w.balance.cents amount.cents) w.balance.currency in
      let equal : equals after after ≡ ok true = (equals_iff after after (ground arith)).1 refl in
      rw (is_known_lem d known, expected_balance-shifted d w.balance amount known alike low high)
        (ground (arith, equal))

  -- The entry of the change continues the wallet's chain from the balance before it.
  pub entry_of-Posted :
      Posted w.balance.currency w.balance.cents (entry_of id transaction_id change)
  entry_of-Posted = record {
    known = known;
    currency_same = sym same;
    positive = one;
    fits = money.in_range.1;
    before = refl;
    after = refl;
    not_negative = low;
    bound = high;
    restored =
        new_ledger_entry-restored id transaction_id change (entry_of id transaction_id change)
          new_ledger_entry_moved;
  }
