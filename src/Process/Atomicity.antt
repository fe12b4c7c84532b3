-- ===== src/Process/Atomicity.antt =====
-- The database after an error of `Within`, `Execute` and `ExecuteFromMessage`.
use distributed_wallet_api.Prelude.{
  ◌≡◌, ◌≢◌, refl, sym, ap, subst, ◌∙◌, true, Bool-cases, inl, inr, arith, Error, infrastructure,
  Result, ok, err, ℕ, zero, suc, ◌+◌, Text,
}
use distributed_wallet_api.Store.{Database, Ports, World, M, lift, ◌>>◌, within, end_transaction}
use distributed_wallet_api.Process.Command.{WagerCommand, validate_command}
use distributed_wallet_api.Process.Flow.{apply_operation}
use distributed_wallet_api.Process.Execute.{
  is_conflict, run_attempts, run_with_retry, execute, message_body, execute_from_message,
}

-- What a computation that has ended in an error leaves of the database: what it was, or, where a
-- COMMIT has failed after it took effect, exactly what one complete run of the body has written.
pub data Atomic {A : Type 0} (ports : Ports) (m : M A) (before : Database) (e : Error)
    (after : Database) : Type 0 where
  untouched : after ≡ before → Atomic ports m before e after
  applied_whole :
      (w : World) (a : A)
      → w.db ≡ before
      → (m w).0 ≡ ok a
      → ports.fails (m w).1.calls ≡ true
      → ports.applied (m w).1.calls ≡ true
      → e ≡ infrastructure
      → after ≡ (m w).1.db
      → Atomic ports m before e after

module _ {A : Type 0} (ports : Ports) where
  end_transaction-Atomic :
      (m : M A) (start : World) (db : Database) (r : Result A × World) {e : Error}
      → start.db ≡ db
      → m start ≡ r
      → (end_transaction ports db r).0 ≡ err e
      → Atomic ports m db e (end_transaction ports db r).1.db
  end_transaction-Atomic m start db (ok a, w) {e} same run h =
      elim (Bool-cases (ports.fails w.calls)) [
        | inl t ↦ elim (Bool-cases (ports.applied w.calls)) [
          | inl y ↦
              let lost : e ≡ infrastructure = ground arith in
              rw (t, y)
                (applied_whole start a same (ap (λ r. r.0) run) (rw run t) (rw run y) lost
                  (sym (ap (λ r. r.1.db) run)))
          | inr n ↦ rw (t, n) (untouched refl)
        ]
        | inr f ↦ absurd (ground arith)
      ]
  end_transaction-Atomic m start db (err x, w) same run h = untouched refl

  -- An error of `Within` leaves what the other instances had committed when it began, but for a
  -- COMMIT that fails after it took effect.
  pub within-Atomic :
      (m : M A) (w : World) {e : Error}
      → (within ports m w).0 ≡ err e
      → Atomic ports m (ports.others w.begun w.db) e (within ports m w).1.db
  unfolding within
  within-Atomic m w {e} h =
      let db = ports.others w.begun w.db in
      let start = record w { db = db; calls = w.calls + 1; begun = w.begun + 1 } in
      elim (Bool-cases (ports.fails w.calls)) [
        | inl t ↦ rw t (untouched refl)
        | inr f ↦ rw f (end_transaction-Atomic m start db (m start) refl refl (rw f at h))
      ]

  rebased :
      (m : M A) {before start after : Database} {e : Error}
      → before ≡ start
      → Atomic ports m before e after
      → Atomic ports m start e after
  rebased m {before} {start} {after} {e} same h = subst (λ db. Atomic ports m db e after) same h

  untouched_of :
      (m : M A) {before after : Database} {e : Error}
      → e ≢ infrastructure
      → Atomic ports m before e after
      → after ≡ before
  untouched_of m apart (untouched same) = same
  untouched_of m apart (applied_whole w a at run failed lost kind same) = absurd (apart kind)

  no_conflict : (r : Result A) → r ≡ err infrastructure → is_conflict r ≢ true
  no_conflict r same t = cc (rw same at t)

  conflicted :
      (m : M A) (w : World) (r : Result A)
      → is_conflict r ≡ true
      → (within ports m w).0 ≡ r
      → (within ports m w).1.db ≡ ports.others w.begun w.db
  conflicted m w (ok a) t e = cc
  conflicted m w (err x) t e =
      untouched_of m (λ same. no_conflict (err x) (ap (λ x. err x) same) t) (within-Atomic m w e)

  -- An attempt that ends in a conflict is rolled back.
  pub within-conflict :
      (m : M A) (w : World)
      → is_conflict (within ports m w).0 ≡ true
      → (within ports m w).1.db ≡ ports.others w.begun w.db
  within-conflict m w t = conflicted m w (within ports m w).0 t refl

  module _ (alone : (n : ℕ) (db : Database) → ports.others n db ≡ db) where
    run_attempts-Atomic :
        (m : M A) (n : ℕ) (w : World) {e : Error}
        → (run_attempts ports m n w).0 ≡ err e
        → Atomic ports m w.db e (run_attempts ports m n w).1.db
    unfolding run_attempts
    run_attempts-Atomic m zero w h = rebased m (alone w.begun w.db) (within-Atomic m w h)
    run_attempts-Atomic m (suc n) w h = elim (Bool-cases (is_conflict (within ports m w).0)) [
      | inl t ↦ rw t (
          rebased m (within-conflict m w t ∙ alone w.begun w.db)
            (run_attempts-Atomic m n (within ports m w).1 (rw t at h)))
      | inr f ↦ rw f (rebased m (alone w.begun w.db) (within-Atomic m w (rw f at h)))
    ]

lifted-Atomic :
    {A B : Type 0} (ports : Ports) (r : Result A) (k m : M B) (w : World) {e : Error}
    → ((e : Error) → (k w).0 ≡ err e → Atomic ports m w.db e (k w).1.db)
    → ((lift r >> k) w).0 ≡ err e
    → Atomic ports m w.db e ((lift r >> k) w).1.db
lifted-Atomic ports (ok _) k m w {e} h g = h e g
lifted-Atomic ports (err _) k m w h g = untouched refl

-- Where no other instance writes, an `Execute` that ends in an error, after any number of attempts,
-- leaves the database exactly as it was, or exactly as one complete run of `apply` on it leaves it.
-- The second happens only if a COMMIT fails after it took effect, and the error is then the one of
-- the infrastructure.
pub execute-err :
    (ports : Ports) (alone : (n : ℕ) (db : Database) → ports.others n db ≡ db) (cmd : WagerCommand)
    (w : World) {e : Error}
    → (execute ports cmd w).0 ≡ err e
    → Atomic ports (apply_operation ports cmd) w.db e (execute ports cmd w).1.db
unfolding execute run_with_retry
execute-err ports alone cmd w h =
    lifted-Atomic ports (validate_command cmd) (run_with_retry ports (apply_operation ports cmd))
      (apply_operation ports cmd) w
      (λ e g. run_attempts-Atomic ports alone (apply_operation ports cmd) 2 w g) h

-- The same of `ExecuteFromMessage`.
pub execute_from_message-err :
    (ports : Ports) (alone : (n : ℕ) (db : Database) → ports.others n db ≡ db) (cmd : WagerCommand)
    (consumer message_id hash : Text) (w : World) {e : Error}
    → (execute_from_message ports consumer cmd message_id hash w).0 ≡ err e
    → Atomic ports
        (message_body ports consumer cmd message_id hash)
        w.db
        e
        (execute_from_message ports consumer cmd message_id hash w).1.db
unfolding execute_from_message run_with_retry
execute_from_message-err ports alone cmd consumer message_id hash w h =
    lifted-Atomic ports (validate_command cmd)
      (run_with_retry ports (message_body ports consumer cmd message_id hash))
      (message_body ports consumer cmd message_id hash) w
      (λ e g.
        run_attempts-Atomic ports alone (message_body ports consumer cmd message_id hash) 2 w g)
      h
