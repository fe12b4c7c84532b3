-- ===== src/Process/Decisions.antt =====
-- The decisions of the flow: which reference a reversal may take, and what its movement undoes.
use distributed_wallet_api.Prelude.{
  Bool-cases, ◌≤ℤ◌, currency_mismatch, ◌≡◌, ◌≢◌, refl, ap, ◌↔◌, inl, inr, true, ==_iff, arith, none,
  some, ok, err, ℤ, pos, ◌+ℤ◌, ◌-ℤ◌, ◌<ℤ◌, +ℤ_parts, int_laws, eq_of_parts, Time, ◌<◌, text_eq,
  text_eq_iff,
}
use distributed_wallet_api.Money.{Money, equals, max_int64}
use distributed_wallet_api.Money.Arith.{IsMoney, equals_iff, mismatch_refused}
use distributed_wallet_api.Wallet.{
  Wallet, Direction, debit_direction, credit_direction, other, BalanceChange,
}
use distributed_wallet_api.Wallet.Movements.{IsWallet, moved, debit_lem, credit_lem, moved-IsWallet}
use distributed_wallet_api.Transaction.{
  WagerTransaction, TransactionKind, bet, win, refund, rollback, kind_direction,
}
use distributed_wallet_api.Ledger.Chain.{IsKnown, shifted}
use distributed_wallet_api.Process.Command.{
  movement_of, apply_movement, agrees, reversible, opposite,
}
use distributed_wallet_api.Process.Movement.{movement_of-IsKnown, apply_movement_lem}

-- What the operations of a kind may refer to: a refund takes back a bet, a rollback takes back a
-- bet, a win or a refund, and for any other kind the kind of the reference is not restricted.
pub data MayReverse : TransactionKind → TransactionKind → Type 0 where
  refunds_bet : MayReverse refund bet
  rolls_back_bet : MayReverse rollback bet
  rolls_back_win : MayReverse rollback win
  rolls_back_refund : MayReverse rollback refund
  unrestricted : {k l : TransactionKind} → k ≢ refund → k ≢ rollback → MayReverse k l

MayReverse-reversible : (k l : TransactionKind) → MayReverse k l → reversible k l ≡ true
MayReverse-reversible k l refunds_bet = refl
MayReverse-reversible k l rolls_back_bet = refl
MayReverse-reversible k l rolls_back_win = refl
MayReverse-reversible k l rolls_back_refund = refl
MayReverse-reversible refund l (unrestricted a b) = absurd (a refl)
MayReverse-reversible rollback l (unrestricted a b) = absurd (b refl)
MayReverse-reversible _ l (unrestricted a b) = refl

reversible-MayReverse : (k l : TransactionKind) → reversible k l ≡ true → MayReverse k l
reversible-MayReverse refund bet e = refunds_bet
reversible-MayReverse refund _ e = cc
reversible-MayReverse rollback bet e = rolls_back_bet
reversible-MayReverse rollback win e = rolls_back_win
reversible-MayReverse rollback refund e = rolls_back_refund
reversible-MayReverse rollback _ e = cc
reversible-MayReverse _ l e = unrestricted (λ a. cc) (λ b. cc)

-- What a reversal and its reference share.
pub record Matches (t reference : WagerTransaction) : Type 0 where
  pub player : t.player_id ≡ reference.player_id
  pub wallet : t.wallet_id ≡ reference.wallet_id
  pub round : t.round_id ≡ reference.round_id
  pub kinds : MayReverse t.kind reference.kind
  pub money : t.money ≡ reference.money

money_equal : (m n : Money) → IsMoney m → IsMoney n → (equals m n ≡ ok true) ↔ (m ≡ n)
money_equal m n h k = (
  λ e. elim (Bool-cases (text_eq m.currency n.currency)) [
    | inl t ↦
        (equals_iff m n
            (record { left = h; right = k; same = (text_eq_iff m.currency n.currency).0 t })).0
          e
    | inr f ↦ absurd (
        unequal
          (mismatch_refused m n h k (λ c. ground (arith, text_eq_iff m.currency n.currency))).3 e)
  ],
  λ e. (equals_iff m n (record { left = h; right = k; same = ap (λ x. x.currency) e })).1 e,
)
  where
    unequal : equals m n ≡ err currency_mismatch → equals m n ≢ ok true
    unequal x y = cc

-- For initialized int64 amounts, `agrees` holds exactly if the two operations have the same player,
-- wallet and round, equal amounts, and kinds that go together: a refund takes back a bet, a
-- rollback a bet, a win or a refund, and no other kind restricts its reference.
pub agrees_iff :
    (t reference : WagerTransaction)
    → IsMoney t.money
    → IsMoney reference.money
    → (agrees t reference ≡ true) ↔ Matches t reference
unfolding agrees
agrees_iff t reference h k =
    let (to, from) = money_equal t.money reference.money h k in
    (
      λ e. ground (
        arith,
        to,
        reversible-MayReverse t.kind reference.kind,
        text_eq_iff t.round_id reference.round_id,
        ==_iff t.player_id reference.player_id,
        ==_iff t.wallet_id reference.wallet_id,
      ),
      λ e. ground (
        arith,
        from,
        e,
        MayReverse-reversible t.kind reference.kind,
        text_eq_iff t.round_id reference.round_id,
        ==_iff t.player_id reference.player_id,
        ==_iff t.wallet_id reference.wallet_id,
      ),
    )

opposite_of_original :
    (t reference : WagerTransaction) {d back : Direction}
    → t.kind ≡ rollback
    → movement_of reference none ≡ ok (some d)
    → movement_of t (some reference) ≡ ok (some back)
    → back ≡ opposite d
unfolding movement_of kind_direction
opposite_of_original t reference {d} {back} r m b = ground arith

difference_sum : (b a : ℤ) → b -ℤ a +ℤ a ≡ b
difference_sum b a = eq_of_parts (b -ℤ a +ℤ a) b (omega int_laws)

sum_difference : (b a : ℤ) → b +ℤ a -ℤ a ≡ b
sum_difference b a = eq_of_parts (b +ℤ a -ℤ a) b (omega int_laws)

reversed_balance :
    (w : Wallet) (amount : Money) (now later : Time) (d : Direction)
    → IsWallet w
    → w.version +ℤ pos 1 <ℤ max_int64
    → IsMoney amount
    → w.balance.currency ≡ amount.currency
    → pos 1 ≤ℤ amount.cents
    → pos 0 ≤ℤ shifted d w.balance.cents amount.cents
    → shifted d w.balance.cents amount.cents ≤ℤ max_int64
    → 0 < later
    → IsKnown d
    → (apply_movement
        (moved w (shifted d w.balance.cents amount.cents) now)
        (opposite d)
        amount
        later).0.balance
      ≡ w.balance
unfolding apply_movement
reversed_balance w amount now later debit_direction v room h same one low high timed k =
    let after = moved w (w.balance.cents -ℤ amount.cents) now in
    let valid =
      moved-IsWallet w (w.balance.cents -ℤ amount.cents) now v (omega int_laws) low high in
    rw
      (
        credit_lem after amount later valid room h same timed,
        difference_sum w.balance.cents amount.cents,
      )
      (ground arith)
reversed_balance w amount now later credit_direction v room h same one low high timed k =
    let after = moved w (w.balance.cents +ℤ amount.cents) now in
    let valid =
      moved-IsWallet w (w.balance.cents +ℤ amount.cents) now v (omega int_laws) low high in
    rw
      (
        debit_lem after amount later valid room h same timed,
        sum_difference w.balance.cents amount.cents,
      )
      (ground (arith, +ℤ_parts w.balance.cents amount.cents))
reversed_balance w amount now later (other _) v room h same one low high timed k = elim k [ ]

-- The movement of a rollback undoes the movement of its reference: if the movement of an operation
-- on a well-formed wallet succeeded, the movement of a rollback of the same amount on the wallet
-- after it brings the balance back, without an overflow and without insufficient funds. The
-- reference is not itself a rollback, both instants are set, and two more versions fit an int64.
pub rollback_restores :
    (t reference : WagerTransaction) (w : Wallet) (now later : Time) {d back : Direction}
    {w' : Wallet} {change : BalanceChange}
    → IsWallet w
    → w.version +ℤ pos 1 <ℤ max_int64
    → IsMoney t.money
    → 0 < now
    → 0 < later
    → t.kind ≡ rollback
    → movement_of reference none ≡ ok (some d)
    → movement_of t (some reference) ≡ ok (some back)
    → apply_movement w d t.money now ≡ (w', ok change)
    → (apply_movement w' back t.money later).0.balance ≡ w.balance
rollback_restores t reference w now later {d} {back} {w'} {change} v room h timed timed' r k b e =
    let known = movement_of-IsKnown reference none k in
    let m = apply_movement_lem w t.money now v (omega int_laws) h timed d known e in
    rw (opposite_of_original t reference r k b, m.wallet)
      (reversed_balance w t.money now later d v room h m.same m.one m.low m.high timed' known)
