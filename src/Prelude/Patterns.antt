-- ===== src/Prelude/Patterns.antt =====
-- The regular expressions that the source tests a message with: a text in any case, and a number
-- between word boundaries.
use Prim.Native.String.{String, [], ◌∷◌}
use Prim.Native.Char.{Char, code}
use Prim.Native.Nat.{ℕ, ◌+◌}
use mathlib.Core.Bool.{Bool, true, false, not, ◌&&◌, ◌||◌}
use refluo.Prelude.Tests.{leb, ◌==◌, if◌then◌else◌}

pub data Pattern : Type 0 where
  ignoring_case whole_word : String → Pattern

abbrev lower : ℕ → ℕ
lower n = if leb 65 n && leb n 90 then n + 32 else n

abbrev same_letter : Char → Char → Bool
same_letter c d = lower (code c) == lower (code d)

-- `\w`: a letter, a digit or an underscore.
abbrev is_word : Char → Bool
is_word c = let n = lower (code c) in (leb 48 n && leb n 57) || (leb 97 n && leb n 122) || (n == 95)

abbrev begins : String → String → Bool
begins s [] = true
begins [] (d ∷ p) = false
begins (c ∷ s) (d ∷ p) = same_letter c d && begins s p

abbrev contains : String → String → Bool
contains [] p = begins [] p
contains (c ∷ s) p = begins (c ∷ s) p || contains s p

abbrev starts_no_word : String → Bool
starts_no_word [] = true
starts_no_word (c ∷ s) = not (is_word c)

-- The word stands at the text's start and ends there.
abbrev begins_word : String → String → Bool
begins_word s [] = starts_no_word s
begins_word [] (d ∷ p) = false
begins_word (c ∷ s) (d ∷ p) = (code c == code d) && begins_word s p

abbrev contains_word : (inside : Bool) → String → String → Bool
contains_word inside [] p = false
contains_word inside (c ∷ s) p =
    (not inside && begins_word (c ∷ s) p) || contains_word (is_word c) s p

-- `pattern.test(message)`.
unfoldable pub tests : Pattern → String → Bool
tests (ignoring_case p) message = contains message p
tests (whole_word p) message = contains_word false message p
