-- ===== src/Store/Steady.antt =====
-- Computations that keep a property of the database, whatever the property is.
use distributed_wallet_api.Prelude.{
  subst, sym, ◌≡◌, Bool, if◌then◌else◌, Option, none, some, arith, Error, Result, ok, Text, Uuid,
}
use distributed_wallet_api.Wallet.{Wallet}
use distributed_wallet_api.Transaction.{WagerTransaction}
use distributed_wallet_api.Ledger.{WalletLedgerEntry}
use distributed_wallet_api.Events.{Envelope}
use distributed_wallet_api.Store.Tables.{find_row, has_wallet_id, has_external_id, Database}
use distributed_wallet_api.Store.Monad.{Ports, World, M, lift, sql, catch, pure, ◌>>=◌}
use distributed_wallet_api.Store.Repositories.{
  Statement, read_wallet, read_transaction, lock_by_id, find_by_provider_and_external_id,
  has_processed_reversal, update_balance, insert_transaction, update_transaction, insert_ledger,
  save_event,
}
use distributed_wallet_api.Store.Triples.{
  Ensures, Ensures-bind, Ensures-sql, Ensures-lift, Ensures-if, Ensures-handled,
}

-- A success of the statement keeps the property of the database.
abbrev pub Respects : {A : Type 0} → (Database → Type 0) → Statement A → Type 0
Respects {A} I s = (db : Database) (a : A) (db' : Database) → s db ≡ ok (a, db') → I db → I db'

-- The writes of the flow keep the property.
pub record Stable (I : Database → Type 0) : Type 0 where
  pub balances : (w : Wallet) (expected : _) → Respects I (update_balance w expected)
  pub inserts : (t : WagerTransaction) → Respects I (insert_transaction t)
  pub updates : (t : WagerTransaction) → Respects I (update_transaction t)
  pub entries : (e : WalletLedgerEntry) → Respects I (insert_ledger e)
  pub events : (e : Envelope) → Respects I (save_event e)

-- A computation that keeps the property.
abbrev pub Steady : {A : Type 0} → (Database → Type 0) → M A → Type 0
Steady I m = (w : World) → I w.db → Ensures (λ _ db. I db) (m w)

read_wallet-same :
    (o : Option Wallet) (db : Database) (w : Wallet) (db' : Database)
    → read_wallet o db ≡ ok (w, db')
    → db' ≡ db
read_wallet-same none db w db' e = cc
read_wallet-same (some v) db w db' e = ground arith

read_transaction-same :
    (o : Option WagerTransaction) (db : Database) (t : WagerTransaction) (db' : Database)
    → read_transaction o db ≡ ok (t, db')
    → db' ≡ db
read_transaction-same none db t db' e = cc
read_transaction-same (some v) db t db' e = ground arith

pub lock_by_id-same :
    (id : Uuid) (db : Database) (w : Wallet) (db' : Database)
    → lock_by_id id db ≡ ok (w, db')
    → db' ≡ db
unfolding lock_by_id
lock_by_id-same id db = read_wallet-same (find_row (has_wallet_id id) db.wallets) db

pub find_by_provider-same :
    (provider external : Text) (db : Database) (t : WagerTransaction) (db' : Database)
    → find_by_provider_and_external_id provider external db ≡ ok (t, db')
    → db' ≡ db
unfolding find_by_provider_and_external_id
find_by_provider-same provider external db =
    read_transaction-same (find_row (has_external_id provider external) db.transactions) db

pub has_processed_reversal-same :
    (id : Uuid) (db : Database) (b : Bool) (db' : Database)
    → has_processed_reversal id db ≡ ok (b, db')
    → db' ≡ db
unfolding has_processed_reversal
has_processed_reversal-same id db b db' e = cc

module _ (ports : Ports) (I : Database → Type 0) where
  pub Steady-bind :
      {A B : Type 0} (m : M A) (f : A → M B)
      → Steady I m
      → ((a : A) → Steady I (f a))
      → Steady I (m >>= f)
  Steady-bind m f h k w i =
      Ensures-bind (λ _ db. I db) (λ _ db. I db) (m w) f (h w i) (λ a w' i'. k a w' i')

  pub Steady-lift : {A : Type 0} (r : Result A) → Steady I (lift r)
  Steady-lift r w i = Ensures-lift ports (λ _ db. I db) r w (λ a e. i)

  pub Steady-sql : {A : Type 0} (s : Statement A) → Respects I s → Steady I (sql ports s)
  Steady-sql s h w i = Ensures-sql ports (λ _ db. I db) s w (λ a db e. h w.db a db e i)

  pub Steady-if :
      {A : Type 0} (b : Bool) (m k : M A)
      → Steady I m
      → Steady I k
      → Steady I (λ w. (if b then m else k) w)
  Steady-if b m k h g w i = Ensures-if ports (λ _ db. I db) b m k w (λ e. h w i) (λ e. g w i)

  pub Steady-read :
      {A : Type 0} (s : Statement A)
      → ((db : Database) (a : A) (db' : Database) → s db ≡ ok (a, db') → db' ≡ db)
      → Steady I (sql ports s)
  Steady-read s same = Steady-sql s (λ db a db' e i. subst I (sym (same db a db' e)) i)

  pub Steady-optional :
      {A B : Type 0} (s : Statement A) (g : A → B) (handler : Error → M B)
      → ((db : Database) (a : A) (db' : Database) → s db ≡ ok (a, db') → db' ≡ db)
      → ((e : Error) → Steady I (handler e))
      → Steady I (catch (sql ports s >>= λ a. pure (g a)) handler)
  Steady-optional s g handler same h w i =
      Ensures-handled ports g (λ _ db. I db) s handler w
        (λ a db e. subst I (sym (same w.db a db e)) i) (λ e w' kept. h e w' (subst I (sym kept) i))
