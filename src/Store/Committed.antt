-- ===== src/Store/Committed.antt =====
-- What a SQL transaction ensures of a result is what it has committed (unit-of-work.go).
use distributed_wallet_api.Prelude.{◌≡◌, refl, ◌+◌, inl, inr, Bool-cases, subst, Result, ok, err}
use distributed_wallet_api.Store.Tables.{Database}
use distributed_wallet_api.Store.Monad.{Ports, World, M, lift, end_transaction, within, ◌>>=◌}
use distributed_wallet_api.Store.Triples.{Ensures}

end_transaction-Ensures :
    {A : Type 0} (ports : Ports) (Q : A → Database → Type 0) (db : Database) (r : Result A × World)
    → Ensures Q r
    → Ensures Q (end_transaction ports db r)
end_transaction-Ensures ports Q db (ok a, w) e = elim (Bool-cases (ports.fails w.calls)) [
  | inl t ↦ rw t tt
  | inr f ↦ rw f e
]
end_transaction-Ensures ports Q db (err x, w) e = tt

-- A result is returned only of what was committed, from what the transaction began on.
pub within-Ensures_begun :
    {A : Type 0} (ports : Ports) (Q : A → Database → Type 0) (m : M A) (w : World)
    → ((w' : World) → w'.db ≡ ports.others w.begun w.db → Ensures Q (m w'))
    → Ensures Q (within ports m w)
unfolding within
within-Ensures_begun ports Q m w h =
    let db = ports.others w.begun w.db in
    let start = record w { db = db; calls = w.calls + 1; begun = w.begun + 1 } in
    elim (Bool-cases (ports.fails w.calls)) [
      | inl t ↦ rw t tt
      | inr f ↦ rw f (end_transaction-Ensures ports Q db (m start) (h start refl))
    ]

pub within-Ensures :
    {A : Type 0} (ports : Ports) (Q : A → Database → Type 0) (m : M A)
    → ((w : World) → Ensures Q (m w))
    → (w : World) → Ensures Q (within ports m w)
within-Ensures ports Q m h w = within-Ensures_begun ports Q m w (λ w' same. h w')

pub lifted-Ensures :
    {A B : Type 0} (Q : B → Database → Type 0) (r : Result A) (k : M B) (w : World)
    → Ensures Q (k w)
    → Ensures Q ((lift r >>= λ _. k) w)
lifted-Ensures Q (ok a) k w h = h
lifted-Ensures Q (err e) k w h = tt

pub Ensures-result :
    {A : Type 0} (Q : A → Database → Type 0) (r : Result A × World) {a : A}
    → Ensures Q r
    → r.0 ≡ ok a
    → Q a r.1.db
Ensures-result Q (ok b, w) {a} h e = let same : b ≡ a = cc in subst (λ x. Q x w.db) same h
Ensures-result Q (err x, w) h e = cc
