-- ===== src/Idempotency/Normal.antt =====
-- The canonical form as a normal form.
use distributed_wallet_api.Prelude.{
  ◌∙◌, ◌≡◌, refl, ap, Bool, false, ◌||◌, ◌&&◌, inl, inr, Bool-cases,
}
use distributed_wallet_api.Idempotency.{
  Json, null, boolean, number, string, array, object, Items, no_items, item, Members, no_members,
  member, Library, is_null, is_transport_field, is_dropped, canonical_value, canonical_items,
  canonical_object,
}

module _ (lib : Library) where
  is_null-canonical : (value : Json) → is_null (canonical_value lib value) ≡ is_null value
  unfolding canonical_value
  is_null-canonical null = refl
  is_null-canonical (boolean _) = refl
  is_null-canonical (number _) = refl
  is_null-canonical (string _) = refl
  is_null-canonical (array _) = refl
  is_null-canonical (object _) = refl

  mutual
    unfolding canonical_value canonical_items canonical_object

    pub canonical_value-idempotent :
        (value : Json) → canonical_value lib (canonical_value lib value) ≡ canonical_value lib value
    canonical_value-idempotent null = refl
    canonical_value-idempotent (boolean _) = refl
    canonical_value-idempotent (number _) = refl
    canonical_value-idempotent (string _) = refl
    canonical_value-idempotent (array items) = ap array (canonical_items-idempotent items)
    canonical_value-idempotent (object members) =
        ap object (canonical_object-idempotent members false)

    canonical_items-idempotent :
        (items : Items)
        → canonical_items lib (canonical_items lib items) ≡ canonical_items lib items
    canonical_items-idempotent no_items = refl
    canonical_items-idempotent (item value items) =
        rw (canonical_value-idempotent value, canonical_items-idempotent items) refl

    -- The canonical form of a canonical form is itself.
    pub canonical_object-idempotent :
        (members : Members) (top : Bool)
        → canonical_object lib (canonical_object lib members top) top
          ≡ canonical_object lib members top
    canonical_object-idempotent no_members top = refl
    canonical_object-idempotent (member key value members) top =
        elim (Bool-cases (is_dropped lib top key value)) [
          | inl gone ↦ rw gone (canonical_object-idempotent members top)
          | inr kept ↦
              let again : is_dropped lib top key (canonical_value lib value) ≡ false =
                ap (λ b. b || (top && is_transport_field lib key)) (is_null-canonical value)
                ∙ kept in
              rw
                (
                  kept,
                  again,
                  canonical_value-idempotent value,
                  canonical_object-idempotent members top,
                )
                refl
        ]
