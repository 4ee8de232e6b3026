-- ===== src/Common/Text.antt =====
-- The parts of Go's `strings`, `slices` and `fmt` that the source uses, on native strings.
use Prim.Native.Nat.{Ordering, ℕ, zero, suc, ◌+◌, ◌/◌, ◌%◌}
use Prim.Native.Char.{code}
use Prim.Native.String
use Prim.Native.String.{String, slice}
use mathlib.Core.Path.{◌≡◌, refl}
use mathlib.Core.Bool.{Bool, true, false, ◌||◌}
use mathlib.Core.Option.{none, some}
use mathlib.Core.List.{List, [], ◌∷◌}
use text.Mathlib.Text
use text.Mathlib.Text.{find?}
use serving_agent.Common.Tests.{ltb, ◌==◌, if◌then◌else◌}

abbrev pub str_eq : String → String → Bool
str_eq s t = Text.◌==◌ s t

-- Go's `<=` on strings, by the order of their characters.
unfoldable pub str_leb : String → String → Bool
str_leb s t = elim (String.compare s t) [ Ordering.gt ↦ false | _ ↦ true ]

infixl 65 ◌<>◌
abbrev pub ◌<>◌ : String → String → String
s <> t = String.◌++◌ s t

-- `slices.Contains` on strings.
unfoldable pub contains : List String → String → Bool
contains [] s = false
contains (x ∷ xs) s = str_eq x s || contains xs s

-- `strings.Contains(s, part)`.
unfoldable pub has_part : String → String → Bool
has_part s part = elim (find? s part) [ none ↦ false | some _ ↦ true ]

-- `strings.Replace(s, c, "", -1)` for a text of one character.
unfoldable pub remove_char : ℕ → String → String
remove_char c String.[] = ""
remove_char c (String.◌∷◌ d s) =
    let rest = remove_char c s in if code d == c then rest else String.◌∷◌ d rest

-- `%d` of a number below 10 ^ rounds. Twenty rounds are enough for a Go `int`.
digits : ℕ → ℕ → String
digits zero n = ""
digits (suc rounds) n =
    let last = slice "0123456789" (n % 10) (n % 10 + 1) in
    let more = digits rounds (n / 10) <> last in if ltb n 10 then last else more

unfoldable pub itoa : ℕ → String
unfolding digits
itoa n = digits 20 n

itoa-503 : itoa 503 ≡ "503"
unfolding itoa
itoa-503 = refl

remove_char-s : remove_char b's' "1.5s" ≡ "1.5"
unfolding remove_char
remove_char-s = refl

-- The order of version numbers as texts is not that of the numbers.
str_leb-versions : (str_leb "0.10.1" "0.10.2" ≡ true) × (str_leb "0.9.0" "0.10.2" ≡ false)
unfolding str_leb
str_leb-versions = (refl, refl)
