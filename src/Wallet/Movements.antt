-- ===== src/Wallet/Movements.antt =====
-- What a debit and a credit do to a wallet, on every branch.
use distributed_wallet_api.Prelude.{
  leb, ◌≡◌, refl, ◌||◌, arith, if◌then◌else◌, ℤ, pos, ◌+ℤ◌, ◌-ℤ◌, ◌≤ℤ◌, ◌<ℤ◌, ltb_ℤ, int_laws,
  +ℤ_parts, -ℤ_parts, ◌≤◌, ◌<◌, Uuid, nil_uuid, ◌≢◌, Time, Result, ok, err, Error,
  insufficient_funds, invalid_debit, invalid_credit, arithmetic_overflow,
}
use distributed_wallet_api.Money.{
  Money, IsInt64, max_int64, wrap64_exact, is_zero, is_negative, compare_money, validate,
}
use distributed_wallet_api.Money.Arith.{
  IsMoney, AreAlike, fits, add-checked, subtract-checked, require_same_currency_ok,
}
use distributed_wallet_api.Wallet.{
  Wallet, Direction, BalanceChange, debit_direction, credit_direction, new_wallet, restore_wallet,
  occurrence, debit, credit, commit,
}

-- The state that `RestoreWallet` accepts, with an int64 balance and version.
pub record IsWallet (w : Wallet) : Type 0 where
  pub has_id : w.id ≢ nil_uuid
  pub has_player : w.player_id ≢ nil_uuid
  pub money : IsMoney w.balance
  pub not_negative : pos 0 ≤ℤ w.balance.cents
  pub versioned : pos 1 ≤ℤ w.version
  pub version_fits : w.version ≤ℤ max_int64
  pub created : 0 < w.created_at
  pub ordered : w.created_at ≤ w.updated_at

-- The later of two instants.
abbrev pub latest : Time → Time → Time
latest a b = if leb a b then b else a

occurrence-latest : (now at : Time) → occurrence now at ≡ latest now at
occurrence-latest now at = ground arith

-- The specification of a movement: the wallet with the new balance, its version one higher, and
-- its instant not before the last change.
abbrev pub moved : Wallet → ℤ → Time → Wallet
moved w cents now = record w {
  balance = record { cents = cents; currency = w.balance.currency };
  version = w.version +ℤ pos 1;
  updated_at = latest now w.updated_at;
}

abbrev pub described : Wallet → Direction → Money → ℤ → Time → BalanceChange
described w direction amount cents now = record {
  wallet_id = w.id;
  direction = direction;
  amount = amount;
  balance_before = w.balance;
  balance_after = record { cents = cents; currency = w.balance.currency };
  wallet_version = w.version +ℤ pos 1;
  occurred_at = latest now w.updated_at;
}

module _ (w : Wallet) (amount : Money) (now : Time) (valid : IsWallet w)
    (room : w.version <ℤ max_int64) (money : IsMoney amount)
    (same : w.balance.currency ≡ amount.currency) (timed : 0 < now) where
  alike : AreAlike w.balance amount
  alike = record { left = valid.money; right = money; same = same }

  -- `Debit` on a well-formed wallet, for an initialized int64 amount of its currency, a set clock
  -- and a version below the largest int64: an amount that is not positive is an invalid debit, an
  -- amount above the balance is insufficient funds, both with the wallet unchanged, and any other
  -- amount is taken off, with the version one higher and an instant not before the last change.
  pub debit_lem : debit w amount now ≡ (
      if is_zero amount || is_negative amount
      then (w, err invalid_debit)
      else if ltb_ℤ w.balance.cents amount.cents
      then (w, err insufficient_funds)
      else let cents = w.balance.cents -ℤ amount.cents in
        (moved w cents now, ok (described w debit_direction amount cents now)))
  unfolding debit compare_money
  debit_lem =
      rw
        (
          require_same_currency_ok w.balance amount alike,
          subtract-checked w.balance amount alike,
          wrap64_exact (w.version +ℤ pos 1) (omega int_laws),
        )
        (ground (arith, -ℤ_parts w.balance.cents amount.cents))

  -- `Credit` under the same conditions: an amount that is not positive is an invalid credit and a
  -- sum above the largest int64 is the overflow error, both with the wallet unchanged, and any
  -- other amount is added, with the version one higher and an instant not before the last change.
  pub credit_lem : credit w amount now ≡ (
      if is_zero amount || is_negative amount
      then (w, err invalid_credit)
      else let cents = w.balance.cents +ℤ amount.cents in
        if fits cents
        then (moved w cents now, ok (described w credit_direction amount cents now))
        else (w, err arithmetic_overflow))
  unfolding credit
  credit_lem =
      rw (add-checked w.balance amount alike, wrap64_exact (w.version +ℤ pos 1) (omega int_laws))
        (ground (arith, +ℤ_parts w.balance.cents amount.cents))

-- A movement that leaves a balance in the int64 range and not negative keeps the wallet well formed.
pub moved-IsWallet :
    (w : Wallet) (cents : ℤ) (now : Time)
    → IsWallet w
    → w.version <ℤ max_int64
    → pos 0 ≤ℤ cents
    → cents ≤ℤ max_int64
    → IsWallet (moved w cents now)
moved-IsWallet w cents now v room low high = ground (arith, +ℤ_parts w.version (pos 1))

module _ (w : Wallet) (amount : Money) (now : Time) (valid : IsWallet w)
    (room : w.version <ℤ max_int64) (money : IsMoney amount)
    (same : w.balance.currency ≡ amount.currency) (timed : 0 < now) where
  -- No debit, accepted or refused, of an initialized int64 amount of the currency of a well-formed
  -- wallet leaves a wallet that breaks an invariant: above all its balance is never negative. The
  -- clock is set and the version has room.
  pub debit-IsWallet : IsWallet (debit w amount now).0
  debit-IsWallet = rw (debit_lem w amount now valid room money same timed) (
      ground (
        arith,
        -ℤ_parts w.balance.cents amount.cents,
        moved-IsWallet w (w.balance.cents -ℤ amount.cents) now valid room,
      ))

  -- No credit, accepted or refused, breaks an invariant of a wallet, under the conditions of
  -- `debit-IsWallet`.
  pub credit-IsWallet : IsWallet (credit w amount now).0
  credit-IsWallet = rw (credit_lem w amount now valid room money same timed) (
      ground (
        arith,
        +ℤ_parts w.balance.cents amount.cents,
        moved-IsWallet w (w.balance.cents +ℤ amount.cents) now valid room,
      ))

commit_refused :
    (w : Wallet) (r : Result (Wallet × BalanceChange)) {e : Error}
    → (commit w r).1 ≡ err e
    → (commit w r).0 ≡ w
commit_refused w (ok _) h = cc
commit_refused w (err _) h = refl

-- A refused movement leaves the wallet as it was, whatever the wallet and the amount are.
pub debit_refused :
    (w : Wallet) (amount : Money) (now : Time) {e : Error}
    → (debit w amount now).1 ≡ err e
    → (debit w amount now).0 ≡ w
unfolding debit
debit_refused w amount now h = commit_refused w _ h

-- `RestoreWallet` returns the wallet that a well-formed row describes.
pub restore_wallet-IsWallet :
    (w : Wallet)
    → IsWallet w
    → restore_wallet w.id w.player_id w.balance w.version w.created_at w.updated_at ≡ ok w
unfolding restore_wallet validate
restore_wallet-IsWallet w v = ground arith

-- A wallet that `RestoreWallet` returns is well formed, if the columns are int64 values.
pub restore_wallet-valid :
    (id player : Uuid) (balance : Money) (version : ℤ) (created updated : Time) {w : Wallet}
    → IsInt64 balance.cents
    → IsInt64 version
    → restore_wallet id player balance version created updated ≡ ok w
    → IsWallet w
unfolding restore_wallet validate
restore_wallet-valid id player balance version created updated b v h = ground arith

pub new_wallet-IsWallet :
    (id player : Uuid) (balance : Money) (now : Time) {w : Wallet}
    → IsInt64 balance.cents
    → new_wallet id player balance now ≡ ok w
    → IsWallet w × (w.balance ≡ balance) × (w.version ≡ pos 1)
unfolding new_wallet validate
new_wallet-IsWallet id player balance now b h = ground arith
