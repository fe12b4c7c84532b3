-- ===== src/Store/Search.antt =====
-- Lemmas on the searches and updates of a table.
use distributed_wallet_api.Prelude.{
  some_eq, ℕ, ◌+◌, ◌≤◌, ◌≡◌, ◌≢◌, refl, Bool, true, false, not, ◌&&◌, ◌||◌, ◌==◌, ==_iff,
  if◌then◌else◌, some, List, [], ◌∷◌, ◌++◌, arith, Bool-cases, inl, inr, subst, sym, ap, ◌∙◌,
}
use distributed_wallet_api.Store.Tables.{find_row, any_row, update_rows}

-- Every row meets a condition.
abbrev pub All {ℓ} : {A : Type ℓ} → (A → Type 0) → List A → Type 0
All P [] = Unit
All P (x ∷ xs) = P x × All P xs

-- No two rows share a key.
abbrev pub Distinct {ℓ} : {A : Type ℓ} → (A → ℕ) → List A → Type 0
Distinct key [] = Unit
Distinct key (x ∷ xs) = (any_row (λ y. key y == key x) xs ≡ false) × Distinct key xs

-- The number of rows that meet a condition.
abbrev pub count_rows {ℓ} : {A : Type ℓ} → (A → Bool) → List A → ℕ
count_rows p [] = 0
count_rows p (x ∷ xs) = (if p x then 1 else 0) + count_rows p xs

or_false : (a b : Bool) → (a || b) ≡ false → (a ≡ false) × (b ≡ false)
or_false a b h = ground arith

module _ {ℓ} {A : Type ℓ} where
  pub All-find :
      (P : A → Type 0) (p : A → Bool) (xs : List A) {x : A}
      → All P xs
      → find_row p xs ≡ some x
      → P x
  All-find P p [] h e = cc
  All-find P p (y ∷ xs) {x} h e = elim (Bool-cases (p y)) [
    | inl t ↦ subst P (some_eq (rw t at e)) h.0
    | inr f ↦ All-find P p xs h.1 (rw f at e)
  ]

  pub find-holds : (p : A → Bool) (xs : List A) {x : A} → find_row p xs ≡ some x → p x ≡ true
  find-holds p [] e = cc
  find-holds p (y ∷ xs) {x} e = ground (arith, find-holds p xs {x = x})

  pub All-append : (P : A → Type 0) (xs : List A) (x : A) → All P xs → P x → All P (xs ++ x ∷ [])
  All-append P [] x h p = (p, tt)
  All-append P (y ∷ xs) x h p = (h.0, All-append P xs x h.1 p)

  pub All-map : (P Q : A → Type 0) (xs : List A) → ((x : A) → P x → Q x) → All P xs → All Q xs
  All-map P Q [] f h = tt
  All-map P Q (x ∷ xs) f h = (f x h.0, All-map P Q xs f h.1)

  pub any_row-append :
      (p : A → Bool) (xs : List A) (x : A) → any_row p (xs ++ x ∷ []) ≡ (any_row p xs || p x)
  any_row-append p [] x = ground arith
  any_row-append p (y ∷ xs) x = ground (arith, any_row-append p xs x)

  pub count_rows-append :
      (p : A → Bool) (xs : List A) (x : A)
      → count_rows p (xs ++ x ∷ []) ≡ count_rows p xs + (if p x then 1 else 0)
  count_rows-append p [] x = omega arith
  count_rows-append p (y ∷ xs) x = omega (arith, count_rows-append p xs x)

  pub count_rows-none : (p : A → Bool) (xs : List A) → any_row p xs ≡ false → count_rows p xs ≡ 0
  count_rows-none p [] h = refl
  count_rows-none p (x ∷ xs) h = ground (arith, count_rows-none p xs)

module _ {ℓ} {A : Type ℓ} (key : A → ℕ) where
  pub Distinct-append :
      (xs : List A) (x : A)
      → Distinct key xs
      → any_row (λ y. key y == key x) xs ≡ false
      → Distinct key (xs ++ x ∷ [])
  Distinct-append [] x d h = (refl, tt)
  Distinct-append (y ∷ xs) x d h =
      (rw any_row-append (ground (arith, d.0)), Distinct-append xs x d.1 (ground arith))

  -- An update that keeps the keys keeps the search for a key.
  pub any_row-update :
      (p : A → Bool) (f : A → A) (k : ℕ) (xs : List A)
      → ((x : A) → key (f x) ≡ key x)
      → any_row (λ y. key y == k) (update_rows p f xs) ≡ any_row (λ y. key y == k) xs
  any_row-update p f k [] h = refl
  any_row-update p f k (x ∷ xs) h = ground (arith, any_row-update p f k xs h, h x)

  pub Distinct-update :
      (p : A → Bool) (f : A → A) (xs : List A)
      → ((x : A) → key (f x) ≡ key x)
      → Distinct key xs
      → Distinct key (update_rows p f xs)
  Distinct-update p f [] h d = tt
  Distinct-update p f (x ∷ xs) h d = (
    rw (any_row-update p f (key (if p x then f x else x)) xs h)
        (subst (λ k. any_row (λ y. key y == k) xs ≡ false) (sym (kept (p x))) d.0),
    Distinct-update p f xs h d.1,
  )
    where
      kept : (b : Bool) → key (if b then f x else x) ≡ key x
      kept true = h x
      kept false = refl

  -- A found row shows in every weaker search.
  found_any :
      (p q : A → Bool) (xs : List A) {x : A}
      → ((y : A) → p y ≡ true → q y ≡ true)
      → find_row p xs ≡ some x
      → any_row q xs ≡ true
  found_any p q [] w e = cc
  found_any p q (y ∷ xs) {x} w e = ground (arith, w y, found_any p q xs {x = x} w)

  -- A row that some search finds is the one that the search for its key finds.
  pub find_self :
      (p : A → Bool) (xs : List A) {x : A}
      → Distinct key xs
      → find_row p xs ≡ some x
      → find_row (λ y. key y == key x) xs ≡ some x
  find_self p [] d e = cc
  find_self p (y ∷ xs) {x} d e = elim (Bool-cases (p y)) [
    | inl t ↦ let same : y ≡ x = some_eq (rw t at e) in rw (← same, (==_iff (key y) (key y)).1 refl)
    | inr f ↦
        let tail : find_row p xs ≡ some x = rw f at e in
        let rest = find_self p xs {x = x} d.1 tail in
        elim (Bool-cases (key y == key x)) [
          | inl same ↦ absurd (
              ground (
                arith,
                found_any (λ z. key z == key x) (λ z. key z == key y) xs {x = x}
                    (λ z h.
                      (==_iff (key z) (key y)).1
                        ((==_iff (key z) (key x)).0 h ∙ sym ((==_iff (key y) (key x)).0 same)))
                    rest,
              ))
          | inr apart ↦ rw apart rest
        ]
  ]

  -- An update that keeps the keys finds the updated row where the old one was.
  pub find_update :
      (k : ℕ) (f : A → A) (xs : List A) {old : A}
      → ((x : A) → key (f x) ≡ key x)
      → find_row (λ y. key y == k) xs ≡ some old
      → find_row (λ y. key y == k) (update_rows (λ y. key y == k) f xs) ≡ some (f old)
  find_update k f [] h e = cc
  find_update k f (y ∷ xs) {old} h e = elim (Bool-cases (key y == k)) [
    | inl t ↦ rw (t, h y, t) (ap (λ z. some (f z)) (some_eq (rw t at e)))
    | inr n ↦ rw (n, n) (find_update k f xs h (rw n at e))
  ]

  count_rows-update_absent :
      (q : A → Bool) (k : ℕ) (f : A → A) (xs : List A)
      → any_row (λ y. key y == k) xs ≡ false
      → count_rows q (update_rows (λ y. key y == k) f xs) ≡ count_rows q xs
  count_rows-update_absent q k f [] h = refl
  count_rows-update_absent q k f (x ∷ xs) h = ground (arith, count_rows-update_absent q k f xs)

  -- An update of one row counts no more rows, if the new row counts only where the old one did.
  pub count_rows-update :
      (q : A → Bool) (k : ℕ) (f : A → A) (xs : List A) {old : A}
      → Distinct key xs
      → find_row (λ y. key y == k) xs ≡ some old
      → q (f old) ≡ false
      → count_rows q (update_rows (λ y. key y == k) f xs) ≤ count_rows q xs
  count_rows-update q k f [] d e h = cc
  count_rows-update q k f (x ∷ xs) {old} d e h = elim (Bool-cases (key x == k)) [
    | inl t ↦
        let same : x ≡ old = some_eq (rw t at e) in
        let rest : any_row (λ y. key y == k) xs ≡ false = rw (← (==_iff (key x) k).0 t) d.0 in
        ground (arith, count_rows-update_absent q k f xs rest, ap (λ z. q (f z)) same)
    | inr n ↦
        let tail : find_row (λ y. key y == k) xs ≡ some old = rw n at e in
        ground (arith, count_rows-update q k f xs {old = old} d.1 tail h)
  ]

  any_row-both :
      (q : A → Bool) (k : ℕ) (xs : List A)
      → any_row (λ y. key y == k) xs ≡ false
      → any_row (λ y. not (key y == k) && q y) xs ≡ false
      → any_row q xs ≡ false
  any_row-both q k [] h g = refl
  any_row-both q k (x ∷ xs) h g = ground (arith, any_row-both q k xs)

  -- If no other row counts, at most the new row does.
  pub count_rows-update_only :
      (q : A → Bool) (k : ℕ) (f : A → A) (xs : List A)
      → Distinct key xs
      → any_row (λ y. not (key y == k) && q y) xs ≡ false
      → count_rows q (update_rows (λ y. key y == k) f xs) ≤ 1
  count_rows-update_only q k f [] d h = omega arith
  count_rows-update_only q k f (x ∷ xs) d h = elim (Bool-cases (key x == k)) [
    | inl t ↦
        let rest : any_row (λ y. key y == k) xs ≡ false = rw (← (==_iff (key x) k).0 t) d.0 in
        ground (
          arith,
          count_rows-update_absent q k f xs rest,
          count_rows-none q xs (
              any_row-both q k xs rest
                (or_false (not (key x == k) && q x) (any_row (λ y. not (key y == k) && q y) xs)
                  h).1),
        )
    | inr n ↦ ground (arith, count_rows-update_only q k f xs d.1)
  ]

  -- Only rows with the key are touched, and the found row is the only one with it.
  module _ (p : A → Bool) (f : A → A) (k : ℕ) (keyed : (x : A) → p x ≡ true → key x ≡ k)
      (P Q : A → Type 0) (keep : (x : A) → key x ≢ k → P x → Q x) where
    update-absent :
        (xs : List A) → any_row (λ y. key y == k) xs ≡ false → All P xs → All Q (update_rows p f xs)
    update-absent [] h a = tt
    update-absent (x ∷ xs) h a =
        let (away, rest) = or_false (key x == k) (any_row (λ y. key y == k) xs) h in
        let apart : key x ≢ k = λ same. ground (arith, ==_iff (key x) k) in
        elim (Bool-cases (p x)) [
          | inl t ↦ absurd (apart (keyed x t))
          | inr t ↦ rw t (keep x apart a.0, update-absent xs rest a.1)
        ]

    pub update-All :
        (xs : List A) {old : A}
        → Distinct key xs
        → find_row p xs ≡ some old
        → All P xs
        → Q (f old)
        → All Q (update_rows p f xs)
    update-All [] d e a q = cc
    update-All (x ∷ xs) {old} d e a q = elim (Bool-cases (p x)) [
      | inl t ↦ rw t (
        subst (λ y. Q (f y)) (sym (some_eq (rw t at e))) q,
        update-absent xs (rw (← keyed x t) d.0) a.1,
      )
      | inr t ↦
          let tail : find_row p xs ≡ some old = rw t at e in
          let apart : key x ≢ k = λ same. ground (
            arith,
            found_any p (λ y. key y == key x) xs {x = old}
                (λ y h. (==_iff (key y) (key x)).1 (keyed y h ∙ sym same)) tail,
          ) in
          rw t (keep x apart a.0, update-All xs d.1 tail a.1 q)
    ]

-- Every row shows in the search for its key.
pub All-self {ℓ} :
    {A : Type ℓ} (key : A → ℕ) (xs : List A) → All (λ x. any_row (λ y. key y == key x) xs ≡ true) xs
All-self key [] = tt
All-self key (x ∷ xs) = (
  ground (arith, ==_iff (key x) (key x)),
  All-map (λ z. any_row (λ y. key y == key z) xs ≡ true)
      (λ z. any_row (λ y. key y == key z) (x ∷ xs) ≡ true) xs (λ z h. ground (arith, h))
      (All-self key xs),
)
