-- ===== src/Process/Movement.antt =====
-- The wallet and the change after `applyMovement`.
use distributed_wallet_api.Prelude.{
  ◌≡◌, ◌≢◌, refl, ap, ◌∙◌, ◌⊎◌, Text, Bool-cases, inl, inr, arith, Option, none, some, ℤ, pos,
  negsuc, ◌+ℤ◌, ◌≤ℤ◌, ◌<ℤ◌, int_laws, +ℤ_parts, -ℤ_parts, ◌<◌, Time, text_eq, text_eq_iff, ok, err,
  currency_mismatch,
}
use distributed_wallet_api.Money.{Money, max_int64, wrap64, add, compare_money}
use distributed_wallet_api.Money.Arith.{IsMoney, mismatch_refused}
use distributed_wallet_api.Wallet.{
  Wallet, Direction, debit_direction, credit_direction, other, BalanceChange, debit, credit, apply,
}
use distributed_wallet_api.Wallet.Movements.{IsWallet, moved, described, debit_lem, credit_lem}
use distributed_wallet_api.Transaction.{WagerTransaction, kind_direction}
use distributed_wallet_api.Ledger.Chain.{IsKnown, shifted}
use distributed_wallet_api.Process.Command.{movement_of, apply_movement}

-- The wallet and the change after an accepted movement.
pub record IsMovement (w : Wallet) (d : Direction) (amount : Money) (now : Time) (w' : Wallet)
    (change : BalanceChange) : Type 0 where
  pub same : w.balance.currency ≡ amount.currency
  pub one : pos 1 ≤ℤ amount.cents
  pub low : pos 0 ≤ℤ shifted d w.balance.cents amount.cents
  pub high : shifted d w.balance.cents amount.cents ≤ℤ max_int64
  pub wallet : w' ≡ moved w (shifted d w.balance.cents amount.cents) now
  pub change_lem : change ≡ described w d amount (shifted d w.balance.cents amount.cents) now

-- The version of a moved wallet is one higher, modulo 2^64.
pub apply_movement-version :
    (w : Wallet) (d : Direction) (amount : Money) (now : Time) {w' : Wallet}
    {change : BalanceChange}
    → apply_movement w d amount now ≡ (w', ok change)
    → (w'.version ≡ wrap64 (w.version +ℤ pos 1))
      × (change.wallet_version ≡ w'.version)
      × (w'.id ≡ w.id)
unfolding apply_movement debit credit apply
apply_movement-version w debit_direction amount now e = ground arith
apply_movement-version w credit_direction amount now e = ground arith
apply_movement-version w (other _) amount now e = ground arith

max_or_room : (v : ℤ) → v ≤ℤ max_int64 → (v ≡ max_int64) ⊎ (v <ℤ max_int64)
max_or_room (pos n) h = ground arith
max_or_room (negsuc n) h = ground arith

wrap_max : (v : ℤ) → v ≡ max_int64 → wrap64 (v +ℤ pos 1) <ℤ pos 0
unfolding wrap64 ◌+ℤ◌
wrap_max v e = rw e (omega arith)

-- A version that did not wrap around had room.
pub version_room :
    (v : ℤ) → pos 1 ≤ℤ v → v ≤ℤ max_int64 → pos 1 ≤ℤ wrap64 (v +ℤ pos 1) → v <ℤ max_int64
version_room v low high after = elim (max_or_room v high) [
  | inl full ↦ absurd (omega (int_laws, after, wrap_max v full))
  | inr room ↦ room
]

module _ (w : Wallet) (amount : Money) (now : Time) (valid : IsWallet w)
    (room : w.version <ℤ max_int64) (money : IsMoney amount) (timed : 0 < now) where
  refused :
      (d : Direction) {w' : Wallet} {change : BalanceChange}
      → add w.balance amount ≡ err currency_mismatch
      → compare_money w.balance amount ≡ err currency_mismatch
      → apply_movement w d amount now ≢ (w', ok change)
  unfolding apply_movement debit credit
  refused debit_direction a c e = ground arith
  refused credit_direction a c e = ground arith
  refused (other _) a c e = ground arith

  same_currency :
      (d : Direction) {w' : Wallet} {change : BalanceChange}
      → apply_movement w d amount now ≡ (w', ok change)
      → w.balance.currency ≡ amount.currency
  unfolding apply_movement debit credit
  same_currency d e = elim (Bool-cases (text_eq w.balance.currency amount.currency)) [
    | inl t ↦ (text_eq_iff w.balance.currency amount.currency).0 t
    | inr f ↦
        let ne : w.balance.currency ≢ amount.currency =
          λ h. ground (arith, text_eq_iff w.balance.currency amount.currency) in
        let (no_sum, no_difference, no_comparison, no_test) =
          mismatch_refused w.balance amount valid.money money ne in
        absurd (refused d no_sum no_comparison e)
  ]

  pub apply_movement_lem :
      (d : Direction) {w' : Wallet} {change : BalanceChange}
      → IsKnown d
      → apply_movement w d amount now ≡ (w', ok change)
      → IsMovement w d amount now w' change
  unfolding apply_movement
  apply_movement_lem debit_direction k e =
      let same = same_currency debit_direction e in
      ground (
        arith,
        debit_lem w amount now valid room money same timed,
        -ℤ_parts w.balance.cents amount.cents,
      )
  apply_movement_lem credit_direction k e =
      let same = same_currency credit_direction e in
      ground (
        arith,
        credit_lem w amount now valid room money same timed,
        +ℤ_parts w.balance.cents amount.cents,
      )
  apply_movement_lem (other _) k e = elim k [ ]

known_lem : (d : Direction) → ((c : Text) → d ≢ other c) → IsKnown d
known_lem debit_direction h = tt
known_lem credit_direction h = tt
known_lem (other c) h = absurd (h c refl)

movement_of-not_other :
    (t : WagerTransaction) (reference : Option WagerTransaction) (c : Text)
    → movement_of t reference ≢ ok (some (other c))
unfolding movement_of kind_direction
movement_of-not_other t none c e = ground arith
movement_of-not_other t (some reference) c e = ground arith

pub movement_of-IsKnown :
    (t : WagerTransaction) (reference : Option WagerTransaction) {d : Direction}
    → movement_of t reference ≡ ok (some d)
    → IsKnown d
movement_of-IsKnown t reference {d} e =
    known_lem d (λ c same. movement_of-not_other t reference c (e ∙ ap (λ x. ok (some x)) same))
