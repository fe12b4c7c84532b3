-- ===== src/Idempotency/Equivalence.antt =====
-- Which payloads have one hash.
use distributed_wallet_api.Prelude.{◌≡◌, true, Text}
use distributed_wallet_api.Idempotency.{Json, object, Members, member, Library, is_dropped}

-- The members of one map in two orders.
pub data Reordered : Members → Members → Type 0 where
  same : {m : Members} → Reordered m m
  keep :
      (k : Text) (v : Json) {m n : Members}
      → Reordered m n
      → Reordered (member k v m) (member k v n)
  swap :
      (k : Text) (v : Json) (k' : Text) (v' : Json) {m : Members}
      → Reordered (member k v (member k' v' m)) (member k' v' (member k v m))
  next : {m n o : Members} → Reordered m n → Reordered n o → Reordered m o

-- `json.Marshal` writes the keys of a map in alphabetical order.
abbrev pub Sorting : Library → Type 0
Sorting lib = (m n : Members) → Reordered m n → lib.encode (object m) ≡ lib.encode (object n)

module _ (lib : Library) where
  -- Two payloads of one operation: the same members in some order, up to the transport metadata and
  -- the members that are null.
  pub data SameOperation : Members → Members → Type 0 where
    equal : {m : Members} → SameOperation m m
    shared :
        (k : Text) (v : Json) {m n : Members}
        → SameOperation m n
        → SameOperation (member k v m) (member k v n)
    swapped :
        (k : Text) (v : Json) (k' : Text) (v' : Json) {m : Members}
        → SameOperation (member k v (member k' v' m)) (member k' v' (member k v m))
    chained : {m n o : Members} → SameOperation m n → SameOperation n o → SameOperation m o
    added :
        (k : Text) (v : Json) {m : Members}
        → is_dropped lib true k v ≡ true
        → SameOperation m (member k v m)
    removed :
        (k : Text) (v : Json) {m : Members}
        → is_dropped lib true k v ≡ true
        → SameOperation (member k v m) m
