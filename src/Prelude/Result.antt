-- ===== src/Prelude/Result.antt =====
-- A call that returns or throws, and loops that keep a local state: `async` code runs its calls in
-- order, and what it did before a throw stays done.
use Prim.Native.String.{String}
use mathlib.Core.Path.{◌≡◌, refl}
use mathlib.Core.Logic.{◌⊎◌, inl, inr}

-- `err` carries the message of the thrown error.
pub data Result (A : Type 0) : Type 0 where
  ok : A → Result A
  err : String → Result A

pub Result-cases :
    {A : Type 0} (r : Result A) → ((a : A) × (r ≡ ok a)) ⊎ ((m : String) × (r ≡ err m))
Result-cases (ok a) = inl (a, refl)
Result-cases (err m) = inr (m, refl)

-- A computation over a state that may throw.
abbrev pub M : Type 0 → Type 0 → Type 0
M S A = S → Result A × S

abbrev pub bind_out : {S A B : Type 0} → Result A → S → (A → M S B) → Result B × S
bind_out (ok a) s f = f a s
bind_out (err m) s f = (err m, s)

infixl 5 ◌>>=◌ ◌>>◌
abbrev pub ◌>>=◌ : {S A B : Type 0} → M S A → (A → M S B) → M S B
◌>>=◌ m f s = let (r, s') = m s in bind_out r s' f

abbrev pub ◌>>◌ : {S B : Type 0} → M S (Unit {0}) → M S B → M S B
m >> k = m >>= λ _. k

abbrev pub return : {S A : Type 0} → A → M S A
return a s = (ok a, s)

abbrev pub throw : {S A : Type 0} → String → M S A
throw m s = (err m, s)

-- The answer of a call that does not touch the local state.
abbrev pub call : {S A : Type 0} → Result A → M S A
call r s = (r, s)

abbrev pub get : {S : Type 0} → M S S
get s = (ok s, s)

abbrev pub modify : {S : Type 0} → (S → S) → M S (Unit {0})
modify f s = (ok tt, f s)

-- What follows a last call does not change the state.
pub bind_out-return :
    {S A B : Type 0} (r : Result A) (s : S) (b : A → B)
    → (bind_out r s (λ a s'. (ok (b a), s'))).1 ≡ s
bind_out-return (ok a) s b = refl
bind_out-return (err m) s b = refl

-- Calls in turn, without a state.
abbrev pub and_then : {A B : Type 0} → Result A → (A → Result B) → Result B
and_then (ok a) f = f a
and_then (err m) f = err m

-- What holds of a result, if there is one.
abbrev pub Holds : {A : Type 0} → (A → Type 0) → Result A → Type 0
Holds P (ok a) = P a
Holds P (err m) = Unit

pub Holds-then :
    {A B : Type 0} (P : B → Type 0) (r : Result A) (f : A → Result B)
    → ((a : A) → r ≡ ok a → Holds P (f a))
    → Holds P (and_then r f)
Holds-then P (ok a) f h = h a refl
Holds-then P (err m) f h = tt

pub Holds-ok : {A : Type 0} (P : A → Type 0) (r : Result A) {a : A} → Holds P r → r ≡ ok a → P a
Holds-ok P r h e = rw e at h
