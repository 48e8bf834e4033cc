-- ===== src/Keeper/Reflector/Canonical.antt =====
-- keeper/src/reflectorSubscription.ts: sortObjectKeys and computeUpdateHash, the text that a
-- Reflector node signs. `localeCompare`, JSON.stringify and sha256 are parameters. Keys that are
-- numbers, which a JavaScript object moves to its front, do not occur in an update.
pub mod Keys
use Prim.Native.String.{String}
use refluo.Prelude.Json.{
  Json, null, bool, number, string, array, object, Items, nil, cons, Fields, end, field, fields_of,
}
use refluo.Prelude.Sort.{sort_by}
use refluo.Prelude.{ℕ, Bool, List, [], ◌∷◌}

module _ (locale_before : String → String → Bool) where
  abbrev pub entry_before : String × Json → String × Json → Bool
  entry_before a b = locale_before a.0 b.0

  unfoldable mutual
    pub sort_object_keys : Json → Json
    sort_object_keys null = null
    sort_object_keys (bool b) = bool b
    sort_object_keys (number n) = number n
    sort_object_keys (string s) = string s
    sort_object_keys (array xs) = array (sort_items xs)
    sort_object_keys (object fs) = object (fields_of (sort_by entry_before (sort_values fs)))

    -- `value.map(sortObjectKeys)`.
    pub sort_items : Items → Items
    sort_items nil = nil
    sort_items (cons x xs) = cons (sort_object_keys x) (sort_items xs)

    pub sort_values : Fields → List (String × Json)
    sort_values end = []
    sort_values (field k v fs) = (k, sort_object_keys v) ∷ sort_values fs

  abbrev pub compute_update_hash :
      (stringify : Json → String) (sha256 : String → List ℕ) → Json → List ℕ
  compute_update_hash stringify sha256 update = sha256 (stringify (sort_object_keys update))
