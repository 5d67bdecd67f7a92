-- ===== src/Base/Decimal.antt =====
-- `str(n)` of a number, and `text.split("/")`.
use Prim.Native.Nat.{ℕ, zero, suc, ◌/◌, ◌%◌}
use Prim.Native.Char.{Char, code}
use Prim.Native.String.{String, ◌++◌}
use mathlib.Core.List.{List, [], ◌∷◌}
use personal_agent_runtime.Base.Equality.{if◌then◌else◌}
use personal_agent_runtime.Base.Tests.{ltb, is_same}

-- The character at a place
char_at : ℕ → String → String
char_at n String.[] = ""
char_at zero (String.◌∷◌ c s) = String.◌∷◌ c String.[]
char_at (suc n) (String.◌∷◌ c s) = char_at n s

digit : ℕ → String
unfolding char_at
digit n = char_at n "0123456789"

-- There are no more digits than the number's own value and one.
digits : ℕ → ℕ → String
unfolding digit
digits zero n = ""
digits (suc fuel) n =
    let rest = digits fuel (n / 10) in if ltb n 10 then digit n else rest ++ digit (n % 10)

unfoldable pub decimal : ℕ → String
unfolding digits
decimal n = digits (suc n) n

-- A text put before the first part
extend : Char → List String → List String
extend c [] = String.◌∷◌ c String.[] ∷ []
extend c (p ∷ ps) = String.◌∷◌ c p ∷ ps

unfoldable pub split_slash : String → List String
unfolding extend
split_slash String.[] = "" ∷ []
split_slash (String.◌∷◌ c s) =
    let rest = split_slash s in if is_same (code c) b'/' then "" ∷ rest else extend c rest
