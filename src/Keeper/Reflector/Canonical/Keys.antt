-- ===== src/Keeper/Reflector/Canonical/Keys.antt =====
-- The hash does not depend on the order of an update's keys.
use Prim.Native.String.{String}
use mathlib.Core.Path.{ap₂}
use refluo.Prelude.Canonical.{insert_by_comm}
use refluo.Prelude.Json.{Json, array, object, Items, nil, cons, Fields, end, field, fields_of}
use refluo.Prelude.Sort.{insert_by, sort_by}
use refluo.Prelude.{ℕ, ◌≡◌, refl, ap, ◌∙◌, Bool, true, false, List}
use refluo.Keeper.Reflector.Canonical.{
  entry_before, sort_object_keys, sort_items, sort_values, compute_update_hash,
}

module _ (locale_before : String → String → Bool) where
  -- Two values that differ in the order of some objects' keys only, at any depth. Keys that
  -- localeCompare does not tell apart stay in their order.
  mutual
    pub data Same : Json → Json → Type 0 where
      itself : (v : Json) → Same v v
      arrays : {xs ys : Items} → SameItems xs ys → Same (array xs) (array ys)
      objects : {fs gs : Fields} → SameFields fs gs → Same (object fs) (object gs)

    pub data SameItems : Items → Items → Type 0 where
      no_items : SameItems nil nil
      items :
          {x y : Json} {xs ys : Items}
          → Same x y
          → SameItems xs ys
          → SameItems (cons x xs) (cons y ys)

    pub data SameFields : Fields → Fields → Type 0 where
      no_fields : SameFields end end
      fields :
          {k : String} {v w : Json} {fs gs : Fields}
          → Same v w
          → SameFields fs gs
          → SameFields (field k v fs) (field k w gs)
      swapped :
          {k j : String} {v w : Json} {fs : Fields}
          → ¬ ((locale_before k j ≡ true) × (locale_before j k ≡ true))
          → SameFields (field k v (field j w fs)) (field j w (field k v fs))
      in_turn : {fs gs hs : Fields} → SameFields fs gs → SameFields gs hs → SameFields fs hs

module _ (locale_before : String → String → Bool)
    (trans : (a b c : String)
      → locale_before a b ≡ true
      → locale_before b c ≡ true
      → locale_before a c ≡ true)
    (total : (a b : String) → locale_before a b ≡ false → locale_before b a ≡ true) where
  mutual
    unfolding sort_object_keys sort_by

    sort-Same :
        {v w : Json}
        → Same locale_before v w
        → sort_object_keys locale_before v ≡ sort_object_keys locale_before w
    sort-Same (itself v) = refl
    sort-Same (arrays h) = ap array (sort-SameItems h)
    sort-Same (objects h) = ap (λ es. object (fields_of es)) (sort-SameFields h)

    sort-SameItems :
        {xs ys : Items}
        → SameItems locale_before xs ys
        → sort_items locale_before xs ≡ sort_items locale_before ys
    sort-SameItems no_items = refl
    sort-SameItems (items h hs) = ap₂ cons (sort-Same h) (sort-SameItems hs)

    sort-SameFields :
        {fs gs : Fields}
        → SameFields locale_before fs gs
        → sort_by (entry_before locale_before) (sort_values locale_before fs)
          ≡ sort_by (entry_before locale_before) (sort_values locale_before gs)
    sort-SameFields no_fields = refl
    sort-SameFields (fields {k = k} h hs) =
        ap₂ (λ v es. insert_by (entry_before locale_before) (k, v) es) (sort-Same h)
          (sort-SameFields hs)
    sort-SameFields (swapped {k = k} {j = j} {v = v} {w = w} {fs = fs} apart) =
        insert_by_comm (entry_before locale_before) (λ a b c h k. trans a.0 b.0 c.0 h k)
          (λ a b h. total a.0 b.0 h) (k, sort_object_keys locale_before v)
          (j, sort_object_keys locale_before w)
          (sort_by (entry_before locale_before) (sort_values locale_before fs))
          (λ h l. absurd (apart (h, l)))
    sort-SameFields (in_turn h k) = sort-SameFields h ∙ sort-SameFields k

  -- If localeCompare orders texts totally (as a preorder: it may find different texts equal), two
  -- updates that differ only in the order of keys of their objects that it tells apart, at any
  -- depth, have the same hash.
  pub compute_update_hash-Same :
      (stringify : Json → String) (sha256 : String → List ℕ) {update other : Json}
      → Same locale_before update other
      → compute_update_hash locale_before stringify sha256 update
        ≡ compute_update_hash locale_before stringify sha256 other
  compute_update_hash-Same stringify sha256 h = ap (λ v. sha256 (stringify v)) (sort-Same h)
