-- ===== src/Resume/Safety.antt =====
-- The invariant and `Expire` of resume-pending-reference.go.
use distributed_wallet_api.Prelude.{sym, subst, Bool-cases, inl, inr, is_nil, ◌+◌, Uuid, Time}
use distributed_wallet_api.Transaction.{WagerTransaction, is_terminal, reference_not_found}
use distributed_wallet_api.Events.{Metadata}
use distributed_wallet_api.Store.{Ports, World, sql, find_by_id}
use distributed_wallet_api.Store.Invariant.{Valid, find_by_id-ok}
use distributed_wallet_api.Store.Triples.{
  Ensures, Ensures-bind, Ensures-sql, Ensures-if, within-keeps,
}
use distributed_wallet_api.Process.{reject_operation}
use distributed_wallet_api.Process.Preserve.{Working, KeepsValid, reject_operation-Valid}
use distributed_wallet_api.Process.Received.{found-Working}
use distributed_wallet_api.Process.Applied.{Sound}
use distributed_wallet_api.Resume.{expire, expire_body, expire_stored}

module _ (ports : Ports) where
  expire_stored-Valid :
      (now : Time) (meta : Metadata) (t : WagerTransaction) (w : World)
      → Working t w.db
      → Ensures KeepsValid (expire_stored ports now meta t w)
  unfolding reject_operation
  expire_stored-Valid now meta t w h =
      Ensures-if ports KeepsValid (is_terminal t.state) _ _ w (λ _. h.valid)
        (λ _. reject_operation-Valid ports t reference_not_found now meta w h)

  expire_body-Valid :
      (id : Uuid) (now : Time) (meta : Metadata) (w : World)
      → Valid w.db
      → Ensures KeepsValid (expire_body ports id now meta w)
  unfolding expire_body
  expire_body-Valid id now meta w v =
      Ensures-bind Working KeepsValid (sql ports (find_by_id id) w) _
        (Ensures-sql ports Working (find_by_id id) w (λ t db e.
          let (same, f) = find_by_id-ok id w.db v e in
          subst (Working t) (sym same) (found-Working _ w.db v f)))
        (λ t w' h. expire_stored-Valid now meta t w' h)

  -- `Expire` leaves a valid database, whatever it returns, if the database is valid, the
  -- identifiers are not nil, the clock is set, and the other instances keep the database valid.
  pub expire-Valid :
      Sound ports
      → (id : Uuid) (meta : Metadata) (w : World) → Valid w.db
      → Valid (expire ports id meta w).1.db
  unfolding expire
  expire-Valid sound id meta w v =
      let keeps = λ (m : Metadata) (w' : World) (v' : Valid w'.db).
        within-keeps ports Valid (expire_body ports id (ports.clock w.ticks) m) sound.others
          (expire_body-Valid id (ports.clock w.ticks) m) w' v' in
      elim (Bool-cases (is_nil meta.correlation_id)) [
        | inl t ↦ rw t (
            keeps (record meta { correlation_id = ports.ids w.drawn })
              (record w { ticks = w.ticks + 1; drawn = w.drawn + 1 }) v)
        | inr f ↦ rw f (keeps meta (record w { ticks = w.ticks + 1 }) v)
      ]
