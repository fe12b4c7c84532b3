-- ===== src/Store/Monad.antt =====
-- The effects of the use cases: the database, the clock and the identifiers as an explicit state,
-- and the SQL transaction of `UnitOfWork.Within` (unit-of-work.go).
use distributed_wallet_api.Prelude.{
  ℕ, ◌+◌, Bool, if◌then◌else◌, Uuid, Time, Error, Result, ok, err, infrastructure,
}
use distributed_wallet_api.Store.Tables.{Database}
use distributed_wallet_api.Store.Repositories.{Statement}

-- What the use cases take from outside: the n-th reading of the clock, the n-th identifier that
-- `uuid.New` returns, whether the n-th call of the database fails, whether a COMMIT that fails as the
-- n-th call has taken effect all the same (its answer was lost), and what the other instances have
-- committed when the n-th SQL transaction begins.
pub record Ports : Type 0 where
  pub clock : ℕ → Time
  pub ids : ℕ → Uuid
  pub fails : ℕ → Bool
  pub applied : ℕ → Bool
  pub others : ℕ → Database → Database

pub record World : Type 0 where
  pub db : Database
  pub ticks : ℕ
  pub drawn : ℕ
  pub calls : ℕ
  pub begun : ℕ

abbrev pub M : Type 0 → Type 0
M A = World → Result A × World

module _ {A : Type 0} where
  abbrev pub pure : A → M A
  pure a w = (ok a, w)

  abbrev pub throw : Error → M A
  throw e w = (err e, w)

  -- A step that has no effect.
  abbrev pub lift : Result A → M A
  lift r w = (r, w)

  abbrev pub after_sql : Result (A × Database) → World → Result A × World
  after_sql (ok (a, db)) w = (ok a, record w { db = db })
  after_sql (err e) w = (err e, w)

  -- One statement: it may fail for reasons that the program does not control.
  abbrev pub sql : Ports → Statement A → M A
  sql ports s w =
      let w' = record w { calls = w.calls + 1 } in
      if ports.fails w.calls then (err infrastructure, w') else after_sql (s w.db) w'

  abbrev pub handled : (Error → M A) → Result A × World → Result A × World
  handled handler (ok a, w) = (ok a, w)
  handled handler (err e, w) = handler e w

  -- A test of the error by `errors.Is`; the handler passes on what it does not know.
  abbrev pub catch : M A → (Error → M A) → M A
  catch m handler w = handled handler (m w)

abbrev pub bind_result : {A B : Type 0} → Result A × World → (A → M B) → Result B × World
bind_result (ok a, w) f = f a w
bind_result (err e, w) f = (err e, w)

infixl 5 ◌>>=◌ ◌>>◌
abbrev pub ◌>>=◌ : {A B : Type 0} → M A → (A → M B) → M B
◌>>=◌ m f w = bind_result (m w) f

abbrev pub ◌>>◌ : {A B : Type 0} → M A → M B → M B
m >> k = m >>= λ _. k

-- `u.clock.Now()`
abbrev pub now_of : Ports → M Time
now_of ports w = (ok (ports.clock w.ticks), record w { ticks = w.ticks + 1 })

-- `u.ids.New()`, and the `uuid.New()` of an envelope.
abbrev pub new_id : Ports → M Uuid
new_id ports w = (ok (ports.ids w.drawn), record w { drawn = w.drawn + 1 })

-- `COMMIT`, which may fail before or after the server has committed: the program gets the same error
-- and cannot tell. An error of the body rolls back.
abbrev pub end_transaction : {A : Type 0} → Ports → Database → Result A × World → Result A × World
end_transaction ports db (ok a, w) =
    let w' = record w { calls = w.calls + 1 } in
    if ports.fails w.calls
    then (err infrastructure, if ports.applied w.calls then w' else record w' { db = db })
    else (ok a, w')
end_transaction ports db (err e, w) = (err e, record w { db = db })

-- `Within`: the transaction begins on what the other instances have committed.
unfoldable pub within : {A : Type 0} → Ports → M A → M A
within ports m w =
    let db = ports.others w.begun w.db in
    let w' = record w { db = db; calls = w.calls + 1; begun = w.begun + 1 } in
    if ports.fails w.calls then (err infrastructure, w') else end_transaction ports db (m w')
