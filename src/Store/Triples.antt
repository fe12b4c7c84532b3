-- ===== src/Store/Triples.antt =====
-- Statements about what a computation ensures: a condition on its result and the database after
-- it, if it succeeds.
use distributed_wallet_api.Prelude.{
  ◌≡◌, refl, Bool, true, false, Bool-cases, inl, inr, if◌then◌else◌, Option, some, Error, Result,
  ok, err, ◌+◌, ℕ, infrastructure,
}
use distributed_wallet_api.Store.Tables.{Database}
use distributed_wallet_api.Store.Repositories.{Statement}
use distributed_wallet_api.Store.Monad.{
  Ports, World, M, pure, lift, sql, after_sql, catch, handled, bind_result, ◌>>=◌, ◌>>◌,
  end_transaction, within,
}

abbrev pub Ensures : {A : Type 0} → (A → Database → Type 0) → Result A × World → Type 0
Ensures Q (ok a, w) = Q a w.db
Ensures Q (err e, w) = Unit

module _ {A B : Type 0} where
  pub Ensures-bind :
      (P : A → Database → Type 0) (Q : B → Database → Type 0) (r : Result A × World) (f : A → M B)
      → Ensures P r
      → ((a : A) (w : World) → P a w.db → Ensures Q (f a w))
      → Ensures Q (bind_result r f)
  Ensures-bind P Q (ok a, w) f h k = k a w h
  Ensures-bind P Q (err e, w) f h k = tt

pub Ensures-weaken :
    {A : Type 0} (P Q : A → Database → Type 0) (r : Result A × World)
    → Ensures P r
    → ((a : A) (db : Database) → P a db → Q a db)
    → Ensures Q r
Ensures-weaken P Q (ok a, w) h k = k a w.db h
Ensures-weaken P Q (err e, w) h k = tt

module _ {A : Type 0} (ports : Ports) (Q : A → Database → Type 0) where
  after_sql-Ensures :
      (r : Result (A × Database)) (w : World)
      → ((a : A) (db : Database) → r ≡ ok (a, db) → Q a db)
      → Ensures Q (after_sql r w)
  after_sql-Ensures (ok (a, db)) w h = h a db refl
  after_sql-Ensures (err e) w h = tt

  -- A statement ensures what its success says.
  pub Ensures-sql :
      (s : Statement A) (w : World)
      → ((a : A) (db : Database) → s w.db ≡ ok (a, db) → Q a db)
      → Ensures Q (sql ports s w)
  Ensures-sql s w h = elim (Bool-cases (ports.fails w.calls)) [
    | inl t ↦ rw t tt
    | inr f ↦ rw f (after_sql-Ensures (s w.db) (record w { calls = w.calls + 1 }) h)
  ]

  pub Ensures-lift :
      (r : Result A) (w : World) → ((a : A) → r ≡ ok a → Q a w.db) → Ensures Q (lift r w)
  Ensures-lift (ok a) w h = h a refl
  Ensures-lift (err e) w h = tt

  pub Ensures-if :
      (b : Bool) (m k : M A) (w : World)
      → (b ≡ true → Ensures Q (m w))
      → (b ≡ false → Ensures Q (k w))
      → Ensures Q ((if b then m else k) w)
  Ensures-if true m k w h g = h refl
  Ensures-if false m k w h g = g refl

module _ {A B : Type 0} (ports : Ports) (g : A → B) where
  after_sql-handled :
      (P : B → Database → Type 0) (handler : Error → M B) (r : Result (A × Database)) (w : World)
      → ((a : A) (db : Database) → r ≡ ok (a, db) → P (g a) db)
      → ((e : Error) (w' : World) → w'.db ≡ w.db → Ensures P (handler e w'))
      → Ensures P (handled handler (bind_result (after_sql r w) (λ a. pure (g a))))
  after_sql-handled P handler (ok (a, db)) w h k = h a db refl
  after_sql-handled P handler (err e) w h k = k e w refl

  -- A statement whose errors are handled.
  pub Ensures-handled :
      (P : B → Database → Type 0) (s : Statement A) (handler : Error → M B) (w : World)
      → ((a : A) (db : Database) → s w.db ≡ ok (a, db) → P (g a) db)
      → ((e : Error) (w' : World) → w'.db ≡ w.db → Ensures P (handler e w'))
      → Ensures P (catch (sql ports s >>= λ a. pure (g a)) handler w)
  Ensures-handled P s handler w h k = elim (Bool-cases (ports.fails w.calls)) [
    | inl t ↦ rw t (k infrastructure (record w { calls = w.calls + 1 }) refl)
    | inr f ↦ rw f (after_sql-handled P handler (s w.db) (record w { calls = w.calls + 1 }) h k)
  ]

-- A lookup whose errors are handled.
pub Ensures-lookup :
    {A : Type 0} (ports : Ports) (P : Option A → Database → Type 0) (s : Statement A)
    (handler : Error → M (Option A)) (w : World)
    → ((a : A) (db : Database) → s w.db ≡ ok (a, db) → P (some a) db)
    → ((e : Error) (w' : World) → w'.db ≡ w.db → Ensures P (handler e w'))
    → Ensures P (catch (sql ports s >>= λ a. pure (some a)) handler w)
Ensures-lookup ports = Ensures-handled ports some

end_transaction-keeps :
    {A : Type 0} (ports : Ports) (I : Database → Type 0) (db : Database) (r : Result A × World)
    → I db
    → Ensures (λ _ db. I db) r
    → I (end_transaction ports db r).1.db
end_transaction-keeps ports I db (ok a, w) h e = elim (Bool-cases (ports.fails w.calls)) [
  | inl t ↦ elim (Bool-cases (ports.applied w.calls)) [ inl y ↦ rw (t, y) e | inr n ↦ rw (t, n) h ]
  | inr f ↦ rw f e
]
end_transaction-keeps ports I db (err e, w) h _ = h

-- A computation that ensures a valid database leaves one behind its SQL transaction, committed or
-- not.
pub within-keeps :
    {A : Type 0} (ports : Ports) (I : Database → Type 0) (m : M A)
    → ((n : ℕ) (db : Database) → I db → I (ports.others n db))
    → ((w : World) → I w.db → Ensures (λ _ db. I db) (m w))
    → (w : World) → I w.db
    → I (within ports m w).1.db
unfolding within
within-keeps ports I m others body w h =
    let db = ports.others w.begun w.db in
    let start = record w { db = db; calls = w.calls + 1; begun = w.begun + 1 } in
    let begun : I db = others w.begun w.db h in
    elim (Bool-cases (ports.fails w.calls)) [
      | inl t ↦ rw t begun
      | inr f ↦ rw f (end_transaction-keeps ports I db (m start) begun (body start begun))
    ]

-- A check before a computation changes nothing.
pub lifted_keeps :
    {A B : Type 0} (I : Database → Type 0) (r : Result A) (k : M B) (w : World)
    → I w.db
    → I (k w).1.db
    → I ((lift r >> k) w).1.db
lifted_keeps I (ok _) k w h g = g
lifted_keeps I (err _) k w h g = h
