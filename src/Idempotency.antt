-- ===== src/Idempotency.antt =====
-- The canonical payload hash (cmd/internal/pkg/idempotency/hash.go). The parser, the encoder, the
-- lower case and the digest of the standard library are parameters.
pub mod Normal
pub mod Equivalence
use distributed_wallet_api.Prelude.{
  Bool, true, false, not, ◌&&◌, ◌||◌, if◌then◌else◌, Option, none, some, List, [], ◌∷◌, codes, Text,
  text_eq, is_empty, is_blank, Result, ok, err, empty_payload, invalid_payload, payload_not_object,
  no_business_fields, fail_if, ◌>>=◌, ◌>>◌,
}

-- A decoded value; a number is the literal that was received. The members of an object have
-- distinct keys, in any order.
mutual
  pub data Json : Type 0 where
    null : Json
    boolean : Bool → Json
    number string : Text → Json
    array : Items → Json
    object : Members → Json

  pub data Items : Type 0 where
    no_items : Items
    item : Json → Items → Items

  pub data Members : Type 0 where
    no_members : Members
    member : Text → Json → Members → Members

abbrev pub transport_fields : List Text
transport_fields =
    codes "idempotencykey"
    ∷ codes "messageid"
    ∷ codes "messagegroupid"
    ∷ codes "messagededuplicationid"
    ∷ codes "sequencenumber"
    ∷ codes "receipthandle"
    ∷ codes "type"
    ∷ codes "occurredat"
    ∷ codes "sentat"
    ∷ codes "timestamp"
    ∷ codes "requestid"
    ∷ codes "correlationid"
    ∷ codes "traceid"
    ∷ []

abbrev pub is_listed : Text → List Text → Bool
is_listed key [] = false
is_listed key (field ∷ fields) = text_eq key field || is_listed key fields

abbrev pub is_null : Json → Bool
is_null null = true
is_null _ = false

-- The standard library: `decode` gives the first value of a text and whether more follows it.
pub record Library : Type 0 where
  pub decode : Text → Option (Json × Bool)
  pub encode : Json → Text
  pub to_lower : Text → Text
  pub digest : Text → Text

module _ (lib : Library) where
  unfoldable pub is_transport_field : Text → Bool
  is_transport_field key = is_listed (lib.to_lower key) transport_fields

  abbrev pub is_dropped : Bool → Text → Json → Bool
  is_dropped top key value = is_null value || (top && is_transport_field key)

  unfoldable mutual
    pub canonical_value : Json → Json
    canonical_value (object members) = object (canonical_object members false)
    canonical_value (array items) = array (canonical_items items)
    canonical_value value = value

    pub canonical_items : Items → Items
    canonical_items no_items = no_items
    canonical_items (item value items) = item (canonical_value value) (canonical_items items)

    pub canonical_object : Members → Bool → Members
    canonical_object no_members top = no_members
    canonical_object (member key value members) top =
        if is_dropped top key value
        then canonical_object members top
        else member key (canonical_value value) (canonical_object members top)

  abbrev pub has_no_members : Members → Bool
  has_no_members no_members = true
  has_no_members _ = false

  -- `CanonicalJSON` from the type test on.
  abbrev pub canonical_members : Json → Result Text
  canonical_members (object members) = do
    let business = canonical_object members true
    fail_if (has_no_members business) no_business_fields
    ok (lib.encode (object business))
  canonical_members _ = err payload_not_object

  abbrev pub canonical_decoded : Option (Json × Bool) → Result Text
  canonical_decoded none = err invalid_payload
  canonical_decoded (some (value, more)) = fail_if more invalid_payload >> canonical_members value

  unfoldable pub canonical_json : Text → Result Text
  canonical_json payload =
      fail_if (is_blank payload) empty_payload >> canonical_decoded (lib.decode payload)

  -- `CanonicalHash`
  unfoldable pub canonical_hash : Text → Result Text
  unfolding canonical_json
  canonical_hash payload = canonical_json payload >>= λ canonical. ok (lib.digest canonical)
