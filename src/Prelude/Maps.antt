-- ===== src/Prelude/Maps.antt =====
-- The source's `Map`: an association list in the order in which the keys were first set. A `Set` is
-- the list of its members in that order.
use Prim.Native.Nat.{ℕ}
use Prim.Native.String.{String}
use mathlib.Core.Path.{◌≡◌, refl, sym, ◌∙◌}
use mathlib.Core.Logic.{◌↔◌, inl, inr}
use mathlib.Core.Bool.{Bool, true, false, ◌||◌}
use mathlib.Core.Option.{Option, none, some, some_inj}
use mathlib.Core.List.{List, [], ◌∷◌, ◌++◌}
use native.Mathlib.Omega.{arith}
use text.Mathlib.Text.{◌==◌ as str_eq}
use text.Mathlib.TextEquality.{eq_iff}
use refluo.Prelude.Tests.{◌==◌, ==_iff, if◌then◌else◌, Bool-cases}
use refluo.Prelude.Lists.{All, All-mono}

-- Keys that `===` tells apart.
pub record Eq {ℓ} (K : Type ℓ) : Type ℓ where
  pub beq : K → K → Bool
  pub beq_iff : (a b : K) → (beq a b ≡ true) ↔ (a ≡ b)

instance abbrev pub nat_eq : Eq ℕ
nat_eq = record { beq = ◌==◌; beq_iff = ==_iff }

instance abbrev pub string_eq : Eq String
string_eq = record { beq = str_eq; beq_iff = eq_iff }

module _ {ℓ κ} {K : Type ℓ} {V : Type κ} ⦃e : Eq K⦄ where
  unfoldable pub map_get : K → List (K × V) → Option V
  map_get k [] = none
  map_get k ((j, v) ∷ m) = if e.beq j k then some v else map_get k m

  unfoldable pub map_set : K → V → List (K × V) → List (K × V)
  map_set k v [] = (k, v) ∷ []
  map_set k v ((j, w) ∷ m) = if e.beq j k then (j, v) ∷ m else (j, w) ∷ map_set k v m

  unfoldable pub map_delete : K → List (K × V) → List (K × V)
  map_delete k [] = []
  map_delete k ((j, w) ∷ m) = if e.beq j k then map_delete k m else (j, w) ∷ map_delete k m

  pub map_get-map_set :
      (k j : K) (v : V) (m : List (K × V))
      → map_get j (map_set k v m) ≡ (if e.beq k j then some v else map_get j m)
  unfolding map_get map_set
  map_get-map_set k j v [] = refl
  map_get-map_set k j v ((i, w) ∷ m) =
      ground (arith, e.beq_iff k j, e.beq_iff i k, e.beq_iff i j, map_get-map_set k j v m)

  pub map_get-map_delete :
      (k j : K) (m : List (K × V))
      → map_get j (map_delete k m) ≡ (if e.beq k j then none else map_get j m)
  unfolding map_get map_delete
  map_get-map_delete k j [] = ground arith
  map_get-map_delete k j ((i, w) ∷ m) =
      ground (arith, e.beq_iff k j, e.beq_iff i k, e.beq_iff i j, map_get-map_delete k j m)

module _ {ℓ} {K : Type ℓ} ⦃e : Eq K⦄ where
  unfoldable pub set_has : K → List K → Bool
  set_has k [] = false
  set_has k (j ∷ s) = e.beq j k || set_has k s

  unfoldable pub set_add : K → List K → List K
  unfolding set_has
  set_add k s = if set_has k s then s else s ++ k ∷ []

module _ {ℓ κ} {K : Type ℓ} {V : Type κ} ⦃e : Eq K⦄ (j k : K) (w : V) (m : List (K × V)) where
  pub map_get-hit : e.beq j k ≡ true → map_get k ((j, w) ∷ m) ≡ some w
  unfolding map_get
  map_get-hit h = rw (h)

  pub map_get-skip : e.beq j k ≡ false → map_get k ((j, w) ∷ m) ≡ map_get k m
  unfolding map_get
  map_get-skip h = rw (h)

  pub map_set-hit : (v : V) → e.beq j k ≡ true → map_set k v ((j, w) ∷ m) ≡ (j, v) ∷ m
  unfolding map_set
  map_set-hit v h = rw (h)

  pub map_set-skip : (v : V) → e.beq j k ≡ false → map_set k v ((j, w) ∷ m) ≡ (j, w) ∷ map_set k v m
  unfolding map_set
  map_set-skip v h = rw (h)

module _ {ℓ κ υ} {K : Type ℓ} {V : Type κ} ⦃e : Eq K⦄ (P : K × V → Type υ) where
  -- What holds of every entry holds of the one that is found.
  pub map_get-All : (k : K) (m : List (K × V)) {v : V} → All P m → map_get k m ≡ some v → P (k, v)
  unfolding map_get
  map_get-All k [] h q = absurd (ground arith)
  map_get-All k ((j, w) ∷ m) (p, h) q = elim (Bool-cases (e.beq j k)) [
    | inl same ↦ rw ((e.beq_iff j k).0 same, (some_inj).0 (rw (same) at q)) at p
    | inr other ↦ map_get-All k m h (rw (other) at q)
  ]

  pub map_set-All : (k : K) (v : V) (m : List (K × V)) → P (k, v) → All P m → All P (map_set k v m)
  unfolding map_set
  map_set-All k v [] p h = (p, tt)
  map_set-All k v ((j, w) ∷ m) p (q, h) = elim (Bool-cases (e.beq j k)) [
    | inl same ↦ rw (same, map_set) (rw (sym ((e.beq_iff j k).0 same)) at p, h)
    | inr other ↦ rw (other, map_set) (q, map_set-All k v m p h)
  ]

module _ {ℓ κ} {K : Type ℓ} {V : Type κ} ⦃e : Eq K⦄ where
  -- No key stands twice.
  abbrev pub IsDistinct : List (K × V) → Type κ
  IsDistinct [] = Unit
  IsDistinct ((k, v) ∷ m) = (map_get k m ≡ none) × IsDistinct m

  pub map_set-IsDistinct :
      (k : K) (v : V) (m : List (K × V)) → IsDistinct m → IsDistinct (map_set k v m)
  unfolding map_set map_get
  map_set-IsDistinct k v [] h = (refl, tt)
  map_set-IsDistinct k v ((j, w) ∷ m) (n, h) = elim (Bool-cases (e.beq j k)) [
    | inl same ↦ rw (same, map_set) (n, h)
    | inr other ↦
        let kept : map_get j (map_set k v m) ≡ none =
          map_get-map_set k j v m ∙ ground (arith, e.beq_iff k j, e.beq_iff j k) in
        rw (other, map_set) (kept, map_set-IsDistinct k v m h)
  ]

  -- Where no key stands twice, every entry is the one that is found under its key.
  pub IsDistinct-All :
      (m : List (K × V)) → IsDistinct m → All (λ entry. map_get entry.0 m ≡ some entry.1) m
  unfolding map_get
  IsDistinct-All [] h = tt
  IsDistinct-All ((j, w) ∷ m) (n, h) = (
    map_get-hit j j w m ((e.beq_iff j j).1 refl),
    All-mono _ _ (λ entry found. still entry found) m (IsDistinct-All m h),
  )
    where
      still :
          (entry : K × V)
          → map_get entry.0 m ≡ some entry.1
          → map_get entry.0 ((j, w) ∷ m) ≡ some entry.1
      still (k, v) found = elim (Bool-cases (e.beq j k)) [
        | inl same ↦
            let gone : map_get k m ≡ none = rw ((e.beq_iff j k).0 same) at n in
            absurd (ground arith)
        | inr other ↦ map_get-skip j k w m other ∙ found
      ]
