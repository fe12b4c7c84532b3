-- ===== src/OpenWallet/Flow.antt =====
-- The invariant and the statements of `OpenWallet.Execute`, one after the other.
use distributed_wallet_api.Prelude.{
  ◌+◌, ◌≡◌, ◌∙◌, ap, subst, true, false, not, [], ◌∷◌, ◌++◌, arith, Bool-cases, inl, inr, Uuid,
  is_nil, is_empty, Time, Error, wallet_not_found, wallet_already_exists, uninitialized_money,
  fail_if, ok,
}
use distributed_wallet_api.Money.{IsInt64, is_positive, is_negative}
use distributed_wallet_api.Wallet.{Wallet, new_wallet}
use distributed_wallet_api.Wallet.Movements.{new_wallet-IsWallet}
use distributed_wallet_api.Events.{Metadata, new_metadata}
use distributed_wallet_api.Store.{
  Database, Ports, World, lift, sql, ◌>>=◌, within, any_row, has_wallet_id,
  find_by_player_and_currency, insert_wallet,
}
use distributed_wallet_api.Store.Invariant.{Valid, find_by_player_and_currency-ok}
use distributed_wallet_api.Store.Triples.{
  lifted_keeps, Ensures, Ensures-bind, Ensures-sql, Ensures-lift, Ensures-if, Ensures-handled,
  within-keeps,
}
use distributed_wallet_api.Process.Preserve.{KeepsValid}
use distributed_wallet_api.Process.Resolve.{Unchanged}
use distributed_wallet_api.Process.Applied.{Sound}
use distributed_wallet_api.OpenWallet.{
  OpenWalletCommand, record_opening, no_existing, opened, open_body, correlation, open_wallet,
}
use distributed_wallet_api.OpenWallet.Safety.{insert_wallet-inv, opened_empty}
use distributed_wallet_api.OpenWallet.Recorded.{
  Fresh, after_wallet, not_positive, record_opening-Valid,
}

module _ (ports : Ports) where
  no_existing-Unchanged :
      (before : Database) (e : Error) (w : World)
      → w.db ≡ before
      → Ensures (Unchanged before) (no_existing ports e w)
  no_existing-Unchanged before wallet_not_found w h = h
  no_existing-Unchanged before _ w h = tt

  inserted :
      (id : Uuid) (cmd : OpenWalletCommand) (now : Time) (x : Wallet) (before db : Database)
      {r : Unit {0}} {db' : Database}
      → Valid before
      → IsInt64 cmd.initial_balance.cents
      → new_wallet id cmd.player_id cmd.initial_balance now ≡ ok x
      → db ≡ before
      → insert_wallet x db ≡ ok (r, db')
      → Fresh before cmd.initial_balance x × (db' ≡ after_wallet before x)
  inserted id cmd now x before db v fits e at i =
      let (wallet, balance, first) =
        new_wallet-IsWallet id cmd.player_id cmd.initial_balance now fits e in
      let (iso, free, there) = insert_wallet-inv x db i in
      (
        record {
          valid = v;
          wallet = wallet;
          iso = iso;
          free = subst (λ (d : Database). any_row (has_wallet_id x.id) d.wallets ≡ false) at free;
          balance_lem = balance;
        },
        there ∙ ap (λ (d : Database). record d { wallets = d.wallets ++ x ∷ [] }) at,
      )

  opened-Valid :
      (cmd : OpenWalletCommand) (meta : Metadata) (before : Database) (x : Wallet) (w : World)
      → is_negative cmd.initial_balance ≡ false
      → Fresh before cmd.initial_balance x
      → w.db ≡ after_wallet before x
      → Ensures KeepsValid (opened ports cmd meta x w)
  opened-Valid cmd meta before x w sign h at =
      Ensures-if ports KeepsValid (not (is_positive cmd.initial_balance)) _ _ w
        (λ p. rw at (
          opened_empty before x h.valid h.wallet h.iso h.free (
            ap (λ m. m.cents) h.balance_lem
            ∙ not_positive cmd.initial_balance (ground (arith, p)) sign)))
        (λ p.
          Ensures-bind KeepsValid KeepsValid (record_opening ports x meta w) _
            (record_opening-Valid ports before x cmd.initial_balance meta w h at) (λ r w' v. v))

  open_body-Valid :
      (cmd : OpenWalletCommand) (now : Time) (meta : Metadata) (w : World)
      → IsInt64 cmd.initial_balance.cents
      → is_negative cmd.initial_balance ≡ false
      → Valid w.db
      → Ensures KeepsValid (open_body ports cmd now meta w)
  unfolding open_body
  open_body-Valid cmd now meta w fits sign v =
      Ensures-bind (Unchanged w.db) KeepsValid _ _
        (Ensures-handled ports (λ _. true) (Unchanged w.db)
          (find_by_player_and_currency cmd.player_id cmd.initial_balance.currency) _ w
          (λ x db e.
            find_by_player_and_currency-ok cmd.player_id cmd.initial_balance.currency w.db v e)
          (λ e w' same. no_existing-Unchanged w.db e w' same))
        (λ exists w1 h1.
          Ensures-bind (Unchanged w.db) KeepsValid (lift (fail_if exists wallet_already_exists) w1)
            _
            (Ensures-lift ports (Unchanged w.db) (fail_if exists wallet_already_exists) w1
              (λ r e. h1))
            (λ r w2 h2.
              let id = ports.ids w2.drawn in
              let next = new_wallet id cmd.player_id cmd.initial_balance now in
              let drawn = record w2 { drawn = w2.drawn + 1 } in
              Ensures-bind (λ x db. (next ≡ ok x) × (db ≡ w.db)) KeepsValid (lift next drawn) _
                (Ensures-lift ports (λ x db. (next ≡ ok x) × (db ≡ w.db)) next drawn
                  (λ x e. (e, h2)))
                (λ x w3 h3.
                  Ensures-bind
                    (λ _ db. Fresh w.db cmd.initial_balance x × (db ≡ after_wallet w.db x))
                    KeepsValid (sql ports (insert_wallet x) w3) _
                    (Ensures-sql ports
                      (λ _ db. Fresh w.db cmd.initial_balance x × (db ≡ after_wallet w.db x))
                      (insert_wallet x) w3
                      (λ r' db i. inserted id cmd now x w.db w3.db v fits h3.0 h3.1 i))
                    (λ r' w4 h4. opened-Valid cmd meta w.db x w4 sign h4.0 h4.1))))

  correlated :
      (cmd : OpenWalletCommand) (now : Time) (w : World)
      → Sound ports
      → IsInt64 cmd.initial_balance.cents
      → is_negative cmd.initial_balance ≡ false
      → Valid w.db
      → Valid
          ((correlation ports cmd.correlation_id >>= λ id.
              within ports (open_body ports cmd now (new_metadata id)))
            w).1.db
  correlated cmd now w sound fits sign v =
      let keeps = λ (id : Uuid) (w' : World) (v' : Valid w'.db).
        within-keeps ports Valid (open_body ports cmd now (new_metadata id)) sound.others
          (λ w'' v''. open_body-Valid cmd now (new_metadata id) w'' fits sign v'') w' v' in
      elim (Bool-cases (is_nil cmd.correlation_id)) [
        | inl t ↦ rw t (keeps (ports.ids w.drawn) (record w { drawn = w.drawn + 1 }) v)
        | inr f ↦ rw f (keeps cmd.correlation_id w v)
      ]

  -- Opening a wallet leaves a valid database, whatever it returns, if the database is valid, the
  -- initial balance is an int64, the identifiers are not nil, the clock is set, and the other
  -- instances keep the database valid.
  pub open_wallet-Valid :
      Sound ports
      → (cmd : OpenWalletCommand) (w : World) → IsInt64 cmd.initial_balance.cents
      → Valid w.db
      → Valid (open_wallet ports cmd w).1.db
  unfolding open_wallet
  open_wallet-Valid sound cmd w fits v =
      let started = record w { ticks = w.ticks + 1 } in
      lifted_keeps Valid (fail_if (is_empty cmd.initial_balance.currency) uninitialized_money) _
        started v
        (elim (Bool-cases (is_negative cmd.initial_balance)) [
          | inl t ↦ rw t v
          | inr f ↦ rw f (correlated cmd (ports.clock w.ticks) started sound fits f v)
        ])
