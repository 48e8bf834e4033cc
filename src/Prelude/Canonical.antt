-- ===== src/Prelude/Canonical.antt =====
-- Sorting by an order that tells all items apart gives one list whatever the order of the items.
use mathlib.Core.Path.{◌≡◌, refl, sym, ap, ap₂, ◌∙◌}
use mathlib.Core.Bool.{Bool, true, false}
use mathlib.Core.List.{List, [], ◌∷◌, map, Permᴰ}
use mathlib.Core.Logic.{inl, inr}
use refluo.Prelude.Tests.{Bool-cases}
use refluo.Prelude.Sort.{insert_by, sort_by}

module _ {ℓ} {A : Type ℓ} (before : A → A → Bool)
    (trans : (x y z : A) → before x y ≡ true → before y z ≡ true → before x z ≡ true)
    (total : (x y : A) → before x y ≡ false → before y x ≡ true) where
  insert_by-same :
      (x y : A) (zs : List A)
      → x ≡ y
      → insert_by before x (insert_by before y zs) ≡ insert_by before y (insert_by before x zs)
  insert_by-same x y zs e = ap₂ (λ u v. insert_by before u (insert_by before v zs)) e (sym e)

  insert_by-le :
      (x y : A) (zs : List A)
      → (before y x ≡ true → x ≡ y)
      → before x y ≡ true
      → insert_by before x (insert_by before y zs) ≡ insert_by before y (insert_by before x zs)
  unfolding insert_by
  insert_by-le x y [] antisym xy = elim (Bool-cases (before y x)) [
    | inl yx ↦ insert_by-same x y [] (antisym yx)
    | inr ny ↦ simp (xy, ny) refl
  ]
  insert_by-le x y (z ∷ zs) antisym xy = elim (Bool-cases (before y x)) [
    | inl yx ↦ insert_by-same x y (z ∷ zs) (antisym yx)
    | inr ny ↦ elim (Bool-cases (before y z)) [
      | inl yz ↦
          let xz : before x z ≡ true = trans x y z xy yz in
          rw (yz, insert_by)
            (rw (xz, insert_by) (rw (xy, insert_by) rw (ny, insert_by) (rw (yz, insert_by) refl)))
      | inr nz ↦ elim (Bool-cases (before x z)) [
        | inl xz ↦
            rw (nz, insert_by) (rw (xz, insert_by) (rw (ny, insert_by) (rw (nz, insert_by) refl)))
        | inr nx ↦
            rw (nz, insert_by)
              (rw (nx, insert_by)
                (rw (nz, insert_by) (ap (λ l. z ∷ l) (insert_by-le x y zs antisym xy))))
      ]
    ]
  ]

  -- Two items that the order tells apart, or that are equal, are inserted in any order.
  pub insert_by_comm :
      (x y : A) (zs : List A)
      → (before x y ≡ true → before y x ≡ true → x ≡ y)
      → insert_by before x (insert_by before y zs) ≡ insert_by before y (insert_by before x zs)
  insert_by_comm x y zs antisym = elim (Bool-cases (before x y)) [
    | inl xy ↦ insert_by-le x y zs (antisym xy) xy
    | inr ny ↦ sym (insert_by-le y x zs (λ xy. sym (antisym xy (total x y ny))) (total x y ny))
  ]

  pub sort_by-Permᴰ :
      {B : Type 0} (f : B → A) {xs ys : List B}
      → ((x y : A) → before x y ≡ true → before y x ≡ true → x ≡ y)
      → Permᴰ xs ys
      → sort_by before (map f xs) ≡ sort_by before (map f ys)
  unfolding sort_by
  sort_by-Permᴰ f antisym Permᴰ.nil = refl
  sort_by-Permᴰ f antisym (Permᴰ.cons e p) =
      ap₂ (insert_by before) (ap f e) (sort_by-Permᴰ f antisym p)
  sort_by-Permᴰ f antisym (Permᴰ.swap {a = a} {b = b} {l = l} e k) =
      insert_by_comm (f a) (f b) (sort_by before (map f l)) (antisym (f a) (f b))
      ∙ ap₂ (λ u v. insert_by before (f u) (insert_by before (f v) (sort_by before (map f l)))) k e
  sort_by-Permᴰ f antisym (Permᴰ.trans p q) = sort_by-Permᴰ f antisym p ∙ sort_by-Permᴰ f antisym q
