-- ===== src/Prelude/Effects.antt =====
-- What a computation adds to an outbox, and what it leaves alone: one rule for each step of a `do`
-- block, whether or not the step throws.
use Prim.Native.Nat.{ℕ, ◌+◌, ◌≤◌}
use mathlib.Core.Path.{◌≡◌, refl, sym, ap, ◌∙◌}
use mathlib.Core.List.{List, [], ◌∷◌, ◌++◌, append-nil, append_assoc}
use native.Mathlib.Omega.{arith}
use refluo.Prelude.Lists.{length, length-append, All, All-append}
use refluo.Prelude.Result.{Result, ok, err, M, ◌>>=◌, bind_out, call}

module _ {S C : Type 0} (outbox : S → List C) (P : C → Type 0) where
  -- Between two states, at most `n` items are added to the outbox, all of them as `P` wants.
  abbrev pub Adds : ℕ → S → S → Type 0
  Adds n s t = (sent : List C) × (outbox t ≡ outbox s ++ sent) × All P sent × (length sent ≤ n)

  pub Adds-none : (n : ℕ) (s : S) → Adds n s s
  Adds-none n s = ([], sym (append-nil (outbox s)), tt, omega arith)

  pub Adds-one : (n : ℕ) (s t : S) (c : C) → outbox t ≡ outbox s ++ c ∷ [] → P c → Adds (n + 1) s t
  Adds-one n s t c e p = (c ∷ [], e, (p, tt), omega arith)

  pub Adds-mono : (m n : ℕ) (s t : S) → m ≤ n → Adds m s t → Adds n s t
  Adds-mono m n s t h (sent, e, p, l) = (sent, e, p, omega arith)

  pub Adds-trans : (m n : ℕ) (s t u : S) → Adds m s t → Adds n t u → Adds (m + n) s u
  Adds-trans m n s t u (xs, e, p, k) (ys, f, q, l) = (
    xs ++ ys,
    f ∙ ap (λ z. z ++ ys) e ∙ append_assoc (outbox s) xs ys,
    All-append P xs ys p q,
    omega (arith, length-append {0} xs ys),
  )

  -- A call whose answer `f` goes on with.
  pub Adds-call :
      {A B : Type 0} (n : ℕ) (s : S) (r : Result A) (f : A → M S B)
      → ((a : A) → r ≡ ok a → Adds n s (f a s).1)
      → Adds n s ((call r >>= f) s).1
  Adds-call n s (ok a) f h = h a refl
  Adds-call n s (err m) f h = Adds-none n s

  -- A computation, and what follows it if it does not throw.
  pub Adds-bind :
      {A B : Type 0} (m n : ℕ) (s : S) (c : M S A) (f : A → M S B)
      → Adds m s (c s).1
      → ((a : A) (t : S) → Adds n t (f a t).1)
      → Adds (m + n) s ((c >>= f) s).1
  Adds-bind m n s c f h k = after (c s) h
    where
      after : (out : Result _ × S) → Adds m s out.1 → Adds (m + n) s (bind_out out.0 out.1 f).1
      after (ok a, t) g = Adds-trans m n s t (f a t).1 g (k a t)
      after (err e, t) g = Adds-mono m (m + n) s t (omega arith) g

module _ {S F : Type 0} (field : S → F) where
  -- A computation leaves a field of the state alone.
  abbrev pub Leaves : {A : Type 0} → M S A → Type 0
  Leaves c = (s : S) → field (c s).1 ≡ field s

  pub Leaves-bind :
      {A B : Type 0} (c : M S A) (f : A → M S B)
      → Leaves c
      → ((a : A) → Leaves (f a))
      → Leaves (c >>= f)
  Leaves-bind c f h k s = after (c s) (h s)
    where
      after :
          (out : Result _ × S) → field out.1 ≡ field s → field (bind_out out.0 out.1 f).1 ≡ field s
      after (ok a, t) g = k a t ∙ g
      after (err e, t) g = g

  pub Leaves-call :
      {A B : Type 0} (r : Result A) (f : A → M S B)
      → ((a : A) → Leaves (f a))
      → Leaves (call r >>= f)
  Leaves-call (ok a) f k s = k a s
  Leaves-call (err m) f k s = refl

module _ {S : Type 0} (P : S → Type 0) where
  -- A computation keeps `P`, whether it returns or throws.
  abbrev pub Keeps : {A : Type 0} → M S A → Type 0
  Keeps c = (s : S) → P s → P (c s).1

  pub Keeps-then :
      {A B : Type 0} (r : Result A) (s : S) (f : A → M S B)
      → P s
      → ((a : A) → r ≡ ok a → Keeps (f a))
      → P (bind_out r s f).1
  Keeps-then (ok a) s f h k = k a refl s h
  Keeps-then (err m) s f h k = h

  pub Keeps-bind :
      {A B : Type 0} (c : M S A) (f : A → M S B)
      → Keeps c
      → ((a : A) → Keeps (f a))
      → Keeps (c >>= f)
  Keeps-bind c f h k s p = Keeps-then (c s).0 (c s).1 f (h s p) (λ a e. k a)
