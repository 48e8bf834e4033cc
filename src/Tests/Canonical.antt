-- ===== src/Tests/Canonical.antt =====
-- An example for the canonical form of an update: keys in another order, at two depths. The keys
-- are ordered by the codes of their characters.
use Prim.Native.String.{String, [], ◌∷◌, ◌++◌}
use Prim.Native.Char.{code}
use mathlib.Core.List
use mathlib.Core.List.{List}
use native.Mathlib.Omega.{arith}
use refluo.Prelude.Json.{Json, string, object, end, field, entries}
use refluo.Prelude.{ℕ, ◌≡◌, refl, Bool, true, false, not}
use refluo.Sdk.SmartAccount.{bytes_before}
use refluo.Sdk.SmartAccount.Payload.{bytes_before_trans, bytes_before_total}
use refluo.Keeper.Reflector.Canonical.{compute_update_hash}
use refluo.Keeper.Reflector.Canonical.Keys.{
  itself, objects, no_fields, fields, swapped, in_turn, compute_update_hash-Same,
}

abbrev codes : String → List ℕ
codes [] = List.[]
codes (c ∷ s) = List.◌∷◌ (code c) (codes s)

abbrev before : String → String → Bool
before s t = bytes_before (codes s) (codes t)

told_apart :
    (s t : String) (b : Bool)
    → before s t ≡ b
    → before t s ≡ not b
    → ¬ ((before s t ≡ true) × (before t s ≡ true))
told_apart s t b h k (e, f) = ground arith

abbrev inner : Json
inner = object (field "asset" (string "XLM") (field "source" (string "dex") end))

abbrev inner_reversed : Json
inner_reversed = object (field "source" (string "dex") (field "asset" (string "XLM") end))

abbrev update : Json
update = object (field "price" (string "11") (field "event" inner end))

abbrev reversed : Json
reversed = object (field "event" inner_reversed (field "price" (string "11") end))

-- The keys of an object in order stand for its text.
abbrev joined : List.List (String × Json) → String
joined List.[] = ""
joined (List.◌∷◌ (k, v) es) = k ++ joined es

abbrev keys_of : Json → String
keys_of (object fs) = joined (entries fs)
keys_of _ = ""

compute_update_hash-Same_example :
    compute_update_hash before keys_of (λ s. codes s) update
    ≡ compute_update_hash before keys_of (λ s. codes s) reversed
compute_update_hash-Same_example =
    compute_update_hash-Same before
      (λ a b c h k. bytes_before_trans (codes a) (codes b) (codes c) h k)
      (λ a b h. bytes_before_total (codes a) (codes b) h) keys_of (λ s. codes s)
      (objects (
        in_turn
          (fields (itself (string "11"))
            (fields (objects (swapped (told_apart "asset" "source" true refl refl))) no_fields))
          (swapped (told_apart "price" "event" false refl refl))))
