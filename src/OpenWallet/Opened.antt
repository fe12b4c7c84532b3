-- ===== src/OpenWallet/Opened.antt =====
-- What a successful `OpenWallet.Execute` has written.
use distributed_wallet_api.Prelude.{
  ◌+◌, ◌≡◌, refl, ◌∙◌, true, false, not, [], ◌∷◌, ◌++◌, arith, Bool-cases, inl, inr, pos, Uuid,
  is_nil, is_empty, Time, Error, wallet_not_found, wallet_already_exists, uninitialized_money,
  negative_initial_balance, fail_if, ok,
}
use distributed_wallet_api.Money.{is_positive, is_negative}
use distributed_wallet_api.Wallet.{Wallet, new_wallet}
use distributed_wallet_api.Transaction.{WagerTransaction}
use distributed_wallet_api.Ledger.{WalletLedgerEntry}
use distributed_wallet_api.Events.{Metadata, new_metadata}
use distributed_wallet_api.Store.{
  Database, Ports, read_wallet, find_row, has_owner, World, lift, sql, within, insert_wallet,
  find_by_player_and_currency,
}
use distributed_wallet_api.Store.Triples.{
  Ensures, Ensures-bind, Ensures-sql, Ensures-lift, Ensures-if, Ensures-handled,
}
use distributed_wallet_api.Store.Committed.{within-Ensures_begun, lifted-Ensures, Ensures-result}
use distributed_wallet_api.OpenWallet.{
  OpenWalletCommand, record_opening, no_existing, opened, open_body, open_wallet,
}
use distributed_wallet_api.OpenWallet.Booked.{
  Rows, IsOpening, IsOpeningCredit, Credited, record_opening-Credited,
}
use distributed_wallet_api.OpenWallet.Safety.{insert_wallet-inv}

-- A wallet as the command asks for.
pub record IsRequested (cmd : OpenWalletCommand) (x : Wallet) : Type 0 where
  pub player : x.player_id ≡ cmd.player_id
  pub balance_same : x.balance ≡ cmd.initial_balance
  pub version_same : x.version ≡ pos 1

-- What opening the wallet `x` has written: its row, and, if the initial balance is positive, the
-- opening transaction and its entry, each after the rows that were there.
pub data Opened (cmd : OpenWalletCommand) (before : Database) (x : Wallet) (db : Database)
    : Type 0 where
  empty_wallet :
      is_positive cmd.initial_balance ≡ false
      → IsRequested cmd x
      → Rows (before.wallets ++ x ∷ []) before.transactions before.ledger db
      → Opened cmd before x db
  credited_wallet :
      (t : WagerTransaction) (e : WalletLedgerEntry)
      → is_positive cmd.initial_balance ≡ true
      → IsRequested cmd x
      → IsOpening x t
      → IsOpeningCredit x t e
      → Rows (before.wallets ++ x ∷ []) (before.transactions ++ t ∷ []) (before.ledger ++ e ∷ []) db
      → Opened cmd before x db

new_wallet-IsRequested :
    (id : Uuid) (cmd : OpenWalletCommand) (now : Time) {x : Wallet}
    → new_wallet id cmd.player_id cmd.initial_balance now ≡ ok x
    → IsRequested cmd x
unfolding new_wallet
new_wallet-IsRequested id cmd now e = ground arith

read_wallet-same :
    (o : _) (db : Database) {x : Wallet} {db' : Database}
    → read_wallet o db ≡ ok (x, db')
    → db' ≡ db
read_wallet-same o db e = ground arith

-- A lookup leaves the database alone.
lookup_same :
    (cmd : OpenWalletCommand) (db : Database) {x : Wallet} {db' : Database}
    → find_by_player_and_currency cmd.player_id cmd.initial_balance.currency db ≡ ok (x, db')
    → db' ≡ db
unfolding find_by_player_and_currency
lookup_same cmd db e =
    read_wallet-same (find_row (has_owner cmd.player_id cmd.initial_balance.currency) db.wallets) db
      e

module _ (ports : Ports) (cmd : OpenWalletCommand) (before : Database) where
  abbrev Before : {A : Type 0} → A → Database → Type 0
  Before _ db = db ≡ before

  no_existing-Before :
      (e : Error) (w : World) → w.db ≡ before → Ensures Before (no_existing ports e w)
  no_existing-Before wallet_not_found w h = h
  no_existing-Before _ w h = tt

  -- The rows after the wallet has been inserted.
  abbrev Inserted : Wallet → Database → Type 0
  Inserted x db =
      IsRequested cmd x × Rows (before.wallets ++ x ∷ []) before.transactions before.ledger db

  insert_wallet-Inserted :
      (x : Wallet) (db : Database) {r : Unit {0}} {db' : Database}
      → IsRequested cmd x
      → db ≡ before
      → insert_wallet x db ≡ ok (r, db')
      → Inserted x db'
  insert_wallet-Inserted x db q at i = (
    q,
    rw ((insert_wallet-inv x db i).2, at)
        (record { wallets = refl; transactions = refl; ledger = refl }),
  )

  opened-Opened :
      (meta : Metadata) (x : Wallet) (w : World)
      → Inserted x w.db
      → Ensures (Opened cmd before) (opened ports cmd meta x w)
  opened-Opened meta x w h =
      Ensures-if ports (Opened cmd before) (not (is_positive cmd.initial_balance)) _ _ w
        (λ p. empty_wallet (ground (arith, p)) h.0 h.1)
        (λ p.
          Ensures-bind
            (λ _ db.
              Credited ports (before.wallets ++ x ∷ []) before.transactions before.ledger x db)
            (Opened cmd before) (record_opening ports x meta w) _
            (record_opening-Credited ports (before.wallets ++ x ∷ []) before.transactions
              before.ledger x meta w h.1)
            (λ r w' c. credited_wallet c.0 c.1 (ground (arith, p)) h.0 c.2 c.3 c.4))

  open_body-Opened :
      (now : Time) (meta : Metadata) (w : World)
      → w.db ≡ before
      → Ensures (Opened cmd before) (open_body ports cmd now meta w)
  unfolding open_body
  open_body-Opened now meta w at =
      Ensures-bind Before (Opened cmd before) _ _
        (Ensures-handled ports (λ _. true) Before
          (find_by_player_and_currency cmd.player_id cmd.initial_balance.currency) _ w
          (λ x db e. lookup_same cmd w.db e ∙ at)
          (λ e w' same. no_existing-Before e w' (same ∙ at)))
        (λ exists w1 h1.
          Ensures-bind Before (Opened cmd before) (lift (fail_if exists wallet_already_exists) w1) _
            (Ensures-lift ports Before (fail_if exists wallet_already_exists) w1 (λ r e. h1))
            (λ r w2 h2.
              let id = ports.ids w2.drawn in
              let next = new_wallet id cmd.player_id cmd.initial_balance now in
              let drawn = record w2 { drawn = w2.drawn + 1 } in
              Ensures-bind (λ x db. IsRequested cmd x × (db ≡ before)) (Opened cmd before)
                (lift next drawn) _
                (Ensures-lift ports (λ x db. IsRequested cmd x × (db ≡ before)) next drawn
                  (λ x e. (new_wallet-IsRequested id cmd now e, h2)))
                (λ x w3 h3.
                  Ensures-bind (λ _ db. Inserted x db) (Opened cmd before)
                    (sql ports (insert_wallet x) w3) _
                    (Ensures-sql ports (λ _ db. Inserted x db) (insert_wallet x) w3
                      (λ r' db i. insert_wallet-Inserted x w3.db h3.0 h3.1 i))
                    (λ r' w4 h4. opened-Opened meta x w4 h4))))

-- An `OpenWallet.Execute` that returns a wallet has written this and no other row of the wallets,
-- the transactions and the ledger: the wallet with the player and the initial balance of the
-- command, and, if that balance is positive, one processed opening transaction of the wallet, its
-- player and the whole balance, and one entry that credits the balance to the wallet from zero
-- under that transaction.
pub open_wallet-Opened :
    (ports : Ports) (cmd : OpenWalletCommand) (w : World) {x : Wallet}
    → (open_wallet ports cmd w).0 ≡ ok x
    → Opened cmd (ports.others w.begun w.db) x (open_wallet ports cmd w).1.db
unfolding open_wallet
open_wallet-Opened ports cmd w e =
    let before = ports.others w.begun w.db in
    let ticked = record w { ticks = w.ticks + 1 } in
    Ensures-result (Opened cmd before) _
      (lifted-Ensures (Opened cmd before)
        (fail_if (is_empty cmd.initial_balance.currency) uninitialized_money) _ ticked
        (lifted-Ensures (Opened cmd before)
          (fail_if (is_negative cmd.initial_balance) negative_initial_balance) _ ticked
          (elim (Bool-cases (is_nil cmd.correlation_id)) [
            | inl t ↦ rw t (
                run (new_metadata (ports.ids w.drawn)) (record ticked { drawn = w.drawn + 1 }) refl
                  refl)
            | inr f ↦ rw f (run (new_metadata cmd.correlation_id) ticked refl refl)
          ])))
      e
  where
    run :
        (meta : Metadata) (w' : World)
        → w'.db ≡ w.db
        → w'.begun ≡ w.begun
        → Ensures
            (Opened cmd (ports.others w.begun w.db))
            (within ports (open_body ports cmd (ports.clock w.ticks) meta) w')
    run meta w' at turn =
        within-Ensures_begun ports (Opened cmd (ports.others w.begun w.db))
          (open_body ports cmd (ports.clock w.ticks) meta) w'
          (λ w'' same.
            open_body-Opened ports cmd (ports.others w.begun w.db) (ports.clock w.ticks) meta w''
              (same ∙ rw (at, turn) refl))
