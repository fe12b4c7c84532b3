-- ===== src/Delivery/Claims.antt =====
-- Which events a claim hands out (`ClaimPending` of outbox-repository.go).
use distributed_wallet_api.Prelude.{
  ap, ℕ, zero, suc, ◌+◌, ◌≤◌, ◌<◌, ◌≡◌, refl, sym, ◌∙◌, true, false, not, inl, inr, Bool,
  Bool-cases, ==_iff, ◌||◌, ◌&&◌, arith, List, [], ◌∷◌, take, length, Uuid, Time, Text,
}
use distributed_wallet_api.Store.{any_row, update_rows}
use distributed_wallet_api.Delivery.Rows.{
  OutboxRow, has_event_id, is_due, due_rows, insert_row, sort_rows, precedes, chosen_rows,
  is_chosen, leased, returned, claimed_table, claimed_rows,
}

any_row-take :
    (p : OutboxRow → Bool) (n : ℕ) (rs : List OutboxRow)
    → any_row p (take n rs) ≡ true
    → any_row p rs ≡ true
any_row-take p zero rs h = cc
any_row-take p (suc n) [] h = h
any_row-take p (suc n) (r ∷ rs) h = ground (arith, any_row-take p n rs)

any_row-insert :
    (p : OutboxRow → Bool) (r : OutboxRow) (rs : List OutboxRow)
    → any_row p (insert_row r rs) ≡ (p r || any_row p rs)
any_row-insert p r [] = refl
any_row-insert p r (s ∷ rs) = elim (Bool-cases (precedes r s)) [
  | inl t ↦ rw t refl
  | inr f ↦ rw (f, any_row-insert p r rs) (ground arith)
]

any_row-sort :
    (p : OutboxRow → Bool) (rs : List OutboxRow) → any_row p (sort_rows rs) ≡ any_row p rs
any_row-sort p [] = refl
any_row-sort p (r ∷ rs) = any_row-insert p r (sort_rows rs) ∙ rw (any_row-sort p rs) refl

length-insert : (r : OutboxRow) (rs : List OutboxRow) → length (insert_row r rs) ≡ suc (length rs)
length-insert r [] = refl
length-insert r (s ∷ rs) = elim (Bool-cases (precedes r s)) [
  | inl t ↦ rw t refl
  | inr f ↦ rw f (omega (arith, length-insert r rs))
]

length-sort : (rs : List OutboxRow) → length (sort_rows rs) ≡ length rs
length-sort [] = refl
length-sort (r ∷ rs) = length-insert r (sort_rows rs) ∙ omega (arith, length-sort rs)

length-due :
    (held : Uuid → Bool) (now : Time) (rs : List OutboxRow)
    → length (due_rows held now rs) ≤ length rs
length-due held now [] = omega arith
length-due held now (r ∷ rs) = elim (Bool-cases (is_due now r && not (held r.event.id))) [
  | inl t ↦ rw t (omega (arith, length-due held now rs))
  | inr f ↦ rw f (omega (arith, length-due held now rs))
]

any_row-due :
    (held : Uuid → Bool) (now : Time) (p : OutboxRow → Bool) (rs : List OutboxRow)
    → any_row p (due_rows held now rs)
      ≡ any_row (λ r. (is_due now r && not (held r.event.id)) && p r) rs
any_row-due held now p [] = refl
any_row-due held now p (r ∷ rs) = elim (Bool-cases (is_due now r && not (held r.event.id))) [
  | inl t ↦ rw (t, any_row-due held now p rs) refl
  | inr f ↦ rw (f, any_row-due held now p rs) refl
]

-- Rows of one identifier are chosen together.
is_chosen-same :
    (chosen : List OutboxRow) (id : Uuid) (r : OutboxRow)
    → has_event_id id r ≡ true
    → is_chosen chosen r ≡ any_row (has_event_id id) chosen
is_chosen-same chosen id r h =
    ap (λ i. any_row (has_event_id i) chosen) ((==_iff r.event.id id).0 h)

-- The returned rows are those of the subquery, as far as their identifiers go.
pub any_row-returned :
    (chosen : List OutboxRow) (publisher_id : Text) (until : Time) (id : Uuid) (rs : List OutboxRow)
    → any_row (has_event_id id) (returned (is_chosen chosen) (leased publisher_id until) rs)
      ≡ (any_row (has_event_id id) rs && any_row (has_event_id id) chosen)
any_row-returned chosen publisher_id until id [] = refl
any_row-returned chosen publisher_id until id (r ∷ rs) = elim (Bool-cases (is_chosen chosen r)) [
  | inl t ↦
      rw (t, any_row-returned chosen publisher_id until id rs)
        (ground (arith, is_chosen-same chosen id r))
  | inr f ↦
      rw (f, any_row-returned chosen publisher_id until id rs)
        (ground (arith, is_chosen-same chosen id r))
]

pub any_row-weaken :
    (p q : OutboxRow → Bool) (rs : List OutboxRow)
    → ((r : OutboxRow) → p r ≡ true → q r ≡ true)
    → any_row p rs ≡ true
    → any_row q rs ≡ true
any_row-weaken p q [] k h = h
any_row-weaken p q (r ∷ rs) k h = ground (arith, k r, any_row-weaken p q rs k)

-- A chosen event is due, in some row that no concurrent statement holds.
pub chosen-due :
    (held : Uuid → Bool) (now : Time) (limit : ℕ) (id : Uuid) (rows : List OutboxRow)
    → any_row (has_event_id id) (chosen_rows held now limit rows) ≡ true
    → any_row (λ r. has_event_id id r && is_due now r) rows ≡ true
unfolding chosen_rows
chosen-due held now limit id rows h =
    any_row-weaken _ _ rows (λ r k. ground (arith, k))
      (sym (any_row-due held now (has_event_id id) rows)
        ∙ sym (any_row-sort (has_event_id id) (due_rows held now rows))
        ∙ any_row-take (has_event_id id) limit (sort_rows (due_rows held now rows)) h)

take-all : {A : Type 0} (n : ℕ) (xs : List A) → length xs ≤ n → take n xs ≡ xs
take-all zero [] h = refl
take-all zero (x ∷ xs) h = absurd (omega (arith, h))
take-all (suc n) [] h = refl
take-all (suc n) (x ∷ xs) h = rw (take-all n xs (omega (arith, h))) refl

-- A limit of at least the rows of the table chooses every row that is due and not held.
pub due-chosen :
    (held : Uuid → Bool) (now : Time) (limit : ℕ) (id : Uuid) (rows : List OutboxRow)
    → length rows ≤ limit
    → held id ≡ false
    → any_row (λ r. has_event_id id r && is_due now r) rows ≡ true
    → any_row (has_event_id id) (chosen_rows held now limit rows) ≡ true
unfolding chosen_rows
due-chosen held now limit id rows room free h =
    let all : take limit (sort_rows (due_rows held now rows)) ≡ sort_rows (due_rows held now rows) =
      take-all limit (sort_rows (due_rows held now rows))
        (omega (arith, room, length-sort (due_rows held now rows), length-due held now rows)) in
    rw all (
      any_row-sort (has_event_id id) (due_rows held now rows)
      ∙ any_row-due held now (has_event_id id) rows
      ∙ any_row-weaken _ _ rows
          (λ r k.
            let same : held r.event.id ≡ held id =
              ap held ((==_iff r.event.id id).0 (ground (arith, k))) in
            ground (arith, k, same, free))
          h)

leased_not_due :
    (chosen : List OutboxRow) (publisher_id : Text) (until now : Time) (id : Uuid)
    (rs : List OutboxRow)
    → now < until
    → any_row (has_event_id id) chosen ≡ true
    → any_row
        (λ r. has_event_id id r && is_due now r)
        (update_rows (is_chosen chosen) (leased publisher_id until) rs)
      ≡ false
leased_not_due chosen publisher_id until now id [] early h = refl
leased_not_due chosen publisher_id until now id (r ∷ rs) early h =
    elim (Bool-cases (is_chosen chosen r)) [
      | inl t ↦ rw (t, leased_not_due chosen publisher_id until now id rs early h) (ground arith)
      | inr f ↦
          rw (f, leased_not_due chosen publisher_id until now id rs early h)
            (ground (arith, is_chosen-same chosen id r))
    ]

-- An event that a claim has returned is not returned by a second claim made on the table that the
-- first one left, before the lease of the first one has expired, whoever makes it and with whatever
-- limit and lease.
pub claim_excludes :
    (held held' : Uuid → Bool) (now now' : Time) (publisher_id publisher_id' : Text)
    (limit limit' lease lease' : ℕ) (rows : List OutboxRow) (id : Uuid)
    → now' < now + lease
    → any_row (has_event_id id) (claimed_rows held now publisher_id limit lease rows) ≡ true
    → any_row (has_event_id id) (
        claimed_rows held' now' publisher_id' limit' lease'
          (claimed_table held now publisher_id limit lease rows))
      ≡ false
unfolding claimed_rows claimed_table
claim_excludes held held' now now' publisher_id publisher_id' limit limit' lease lease' rows id
      early h =
    let first = chosen_rows held now limit rows in
    let table = update_rows (is_chosen first) (leased publisher_id (now + lease)) rows in
    let second = chosen_rows held' now' limit' table in
    let chosen : any_row (has_event_id id) first ≡ true =
      ground (arith, any_row-returned first publisher_id (now + lease) id rows) in
    let none_due = leased_not_due first publisher_id (now + lease) now' id rows early chosen in
    ground (
      arith,
      any_row-returned second publisher_id' (now' + lease') id table,
      chosen-due held' now' limit' id table,
    )
