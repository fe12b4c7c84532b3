-- ===== src/Messaging/Safety.antt =====
-- What the handling of a message leaves behind, whatever its body is.
use distributed_wallet_api.Prelude.{
  true, ap, sym, ◌∙◌, ℕ, ◌+◌, ◌≡◌, refl, Option, Text, Uuid, Error, infrastructure,
  permanent_message, Result, ok, err,
}
use distributed_wallet_api.Store.{Database, Ports, World, M, handled, bind_result, throw, pure}
use distributed_wallet_api.Store.Invariant.{Valid}
use distributed_wallet_api.Store.Committed.{Ensures-result}
use distributed_wallet_api.Process.{execute_from_message, message_body, WagerResult}
use distributed_wallet_api.Process.Applied.{Sound}
use distributed_wallet_api.Process.Safety.{execute_from_message-Valid}
use distributed_wallet_api.Process.Atomicity.{
  Atomic, untouched, applied_whole, execute_from_message-err,
}
use distributed_wallet_api.Process.Acknowledged.{
  Completed, message_body-Completed, execute_from_message-Completed,
}
use distributed_wallet_api.Messaging.Inbound.{InboundMessage, Decoder, parse_inbound}
use distributed_wallet_api.Messaging.Handler.{command_from, classify, handle, delete, disposal}
use distributed_wallet_api.Messaging.Parsed.{parse_inbound-Wellformed}

abbrev answered : {A : Type 0} → Result A × World → Result (Unit {0}) × World
answered r = handled (λ e. throw (classify e)) (bind_result r (λ _. pure tt))

answered-world : {A : Type 0} (r : Result A × World) → (answered r).1 ≡ r.1
answered-world (ok a, w) = refl
answered-world (err e, w) = refl

answered-ok : {A : Type 0} (r : Result A × World) → (answered r).0 ≡ ok tt → (a : A) × (r.0 ≡ ok a)
answered-ok (ok a, w) e = (a, refl)
answered-ok (err x, w) e = cc

answered-err :
    {A : Type 0} (r : Result A × World) {e : Error}
    → (answered r).0 ≡ err e
    → (x : Error) × (r.0 ≡ err x) × (e ≡ classify x)
answered-err (ok a, w) e = cc
answered-err (err x, w) h = (x, refl, cc h)

classify_infrastructure : (x : Error) → x ≡ infrastructure → classify x ≡ infrastructure
classify_infrastructure x h = rw h refl

-- The consumer deletes what was handled without an error, and nothing else.
pub disposal-delete :
    (visibility_timeout : ℕ) (count : Option ℕ) (r : Result (Unit {0}))
    → disposal visibility_timeout count r ≡ delete
    → r ≡ ok tt
unfolding disposal
disposal-delete visibility_timeout count (ok tt) h = refl
disposal-delete visibility_timeout count (err permanent_message) h = cc
disposal-delete visibility_timeout count (err _) h = cc

refused_no_ok : {r : Result (Unit {0})} → r ≡ err permanent_message → r ≡ ok tt → ⊥
refused_no_ok e h = cc

module _ (ports : Ports) (decoder : Decoder) (sha1_uuid : Text → Uuid) (consumer body : Text)
    (w : World) where
  drawn : World
  drawn = record w { drawn = w.drawn + 1 }

  run : InboundMessage → Result WagerResult × World
  run m =
      execute_from_message ports consumer
        (command_from m (sha1_uuid m.message_id) (ports.ids w.drawn)) m.message_id m.payload_hash
        drawn

  -- What `ExecuteFromMessage` runs in its SQL transaction for the message.
  abbrev pub carried : InboundMessage → M WagerResult
  carried m =
      message_body ports consumer (command_from m (sha1_uuid m.message_id) (ports.ids w.drawn))
        m.message_id m.payload_hash

  -- `Handle` refuses the body, or answers what `ExecuteFromMessage` answers.
  data Handled : Type 0 where
    refused : handle ports decoder sha1_uuid consumer body w ≡ (err permanent_message, w) → Handled
    applied :
        (m : InboundMessage)
        → parse_inbound decoder body ≡ ok m
        → handle ports decoder sha1_uuid consumer body w ≡ answered (run m)
        → Handled

  handle-Handled : Handled
  unfolding handle run drawn
  handle-Handled = go (parse_inbound decoder body) refl
    where
      go : (r : Result InboundMessage) → parse_inbound decoder body ≡ r → Handled
      go (ok m) e = applied m e (rw e refl)
      go (err x) e = refused (rw e refl)

  -- Whatever the body of a message is, `Handle` leaves a valid database, whatever it answers: the
  -- amount of a message that `ParseInbound` accepts needs no further condition. The database is
  -- valid, the identifiers are not nil, the clock is set, and the other instances keep the database
  -- valid.
  pub handle-Valid :
      Sound ports → Valid w.db → Valid (handle ports decoder sha1_uuid consumer body w).1.db
  unfolding run drawn
  handle-Valid sound valid = elim handle-Handled [
    | refused e ↦ rw e valid
    | applied m parsed e ↦
        let good = parse_inbound-Wellformed decoder body {m = m} parsed in
        rw (e, answered-world (run m))
          (execute_from_message-Valid ports sound
            (command_from m (sha1_uuid m.message_id) (ports.ids w.drawn)) good.iso good.in_range
            drawn valid consumer m.message_id m.payload_hash)
  ]

  -- What an error of `Handle` leaves of the database: what it was, or, where a COMMIT has failed
  -- after it took effect, what one complete run for an accepted message has written, with the
  -- message completed. The second is never reported as permanent.
  pub data Unhandled (e : Error) (after : Database) : Type 0 where
    unchanged : after ≡ w.db → Unhandled e after
    stands :
        (m : InboundMessage) (start : World) (r : WagerResult)
        → parse_inbound decoder body ≡ ok m
        → start.db ≡ w.db
        → (carried m start).0 ≡ ok r
        → ports.fails (carried m start).1.calls ≡ true
        → ports.applied (carried m start).1.calls ≡ true
        → e ≡ infrastructure
        → after ≡ (carried m start).1.db
        → Completed consumer m.message_id after
        → Unhandled e after

  Atomic-Unhandled :
      (m : InboundMessage) {e x : Error} {after : Database}
      → parse_inbound decoder body ≡ ok m
      → e ≡ classify x
      → Atomic ports (carried m) w.db x after
      → Unhandled e after
  Atomic-Unhandled m parsed same (untouched at) = unchanged at
  Atomic-Unhandled m {x = x} parsed same (applied_whole start r at done failed lost kind there) =
      stands m start r parsed at done failed lost (same ∙ classify_infrastructure x kind) there (
        rw there (
          Ensures-result (λ _ db. Completed consumer m.message_id db) (carried m start)
            (message_body-Completed consumer m.message_id ports
              (command_from m (sha1_uuid m.message_id) (ports.ids w.drawn)) m.payload_hash start)
            done))

  -- Where no other instance writes, a message whose handling ends in an error has changed nothing
  -- in the database, or the error is not permanent and a COMMIT has failed after it took effect:
  -- then the database is as one complete run for the accepted message leaves it, with the message
  -- completed in the inbox.
  pub handle-err :
      ((n : ℕ) (db : Database) → ports.others n db ≡ db)
      → {e : Error} → (handle ports decoder sha1_uuid consumer body w).0 ≡ err e
      → Unhandled e (handle ports decoder sha1_uuid consumer body w).1.db
  unfolding run drawn
  handle-err alone {e} h = elim handle-Handled [
    | refused same ↦ rw same (unchanged refl)
    | applied m parsed same ↦
        let (x, failed, kind) = answered-err (run m) {e = e} (rw same at h) in
        rw (same, answered-world (run m))
          (Atomic-Unhandled m parsed kind (
            execute_from_message-err ports alone
              (command_from m (sha1_uuid m.message_id) (ports.ids w.drawn)) consumer m.message_id
              m.payload_hash drawn failed))
  ]

  -- The consumer deletes a message only if its body is an accepted message that the inbox has as
  -- completed in the database that `Handle` leaves, in whatever way the calls of the database fail
  -- and whatever other instances do.
  pub handle-Completed :
      (visibility_timeout : ℕ) (count : Option ℕ)
      → disposal visibility_timeout count (handle ports decoder sha1_uuid consumer body w).0
        ≡ delete
      → (m : InboundMessage) × (parse_inbound decoder body ≡ ok m)
        × Completed consumer m.message_id (handle ports decoder sha1_uuid consumer body w).1.db
  unfolding run drawn
  handle-Completed visibility_timeout count h = elim handle-Handled [
    | refused e ↦
        absurd (refused_no_ok (ap (λ r. r.0) e) (disposal-delete visibility_timeout count _ h))
    | applied m parsed e ↦
        let (r, done) =
          answered-ok (run m)
            (sym (ap (λ r. r.0) e) ∙ disposal-delete visibility_timeout count _ h) in
        (
          m,
          parsed,
          rw (e, answered-world (run m))
              (execute_from_message-Completed ports consumer
                (command_from m (sha1_uuid m.message_id) (ports.ids w.drawn)) m.message_id
                m.payload_hash drawn done),
        )
  ]
