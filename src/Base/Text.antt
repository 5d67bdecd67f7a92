-- ===== src/Base/Text.antt =====
-- `str.strip()` and `str.lower()` of Python, on native texts.
pub mod Strip
use Prim.Native.Char.{Char, code}
use Prim.Native.String.{String}
use Prim.Native.Nat.{ℕ, zero, suc}
use mathlib.Core.Path.{◌≡◌, refl}
use mathlib.Core.Bool.{Bool, true, false, ◌||◌, ◌&&◌}
use personal_agent_runtime.Base.Equality.{if◌then◌else◌}
use personal_agent_runtime.Base.Tests.{leb}

within : ℕ → ℕ → ℕ → Bool
within lo hi c = leb lo c && leb c hi

-- `str.isspace` of one code point.
unfoldable pub is_space : Char → Bool
unfolding within
is_space ch =
    let c = code ch in
    within 9 13 c
    || within 28 32 c
    || within 0x85 0x85 c
    || within 0xa0 0xa0 c
    || within 0x1680 0x1680 c
    || within 0x2000 0x200a c
    || within 0x2028 0x2029 c
    || within 0x202f 0x202f c
    || within 0x205f 0x205f c
    || within 0x3000 0x3000 c

abbrev pub is_empty : String → Bool
is_empty String.[] = true
is_empty (String.◌∷◌ _ _) = false

drop_leading : String → String
drop_leading String.[] = ""
drop_leading (String.◌∷◌ c s) =
    let rest = drop_leading s in if is_space c then rest else String.◌∷◌ c s

drop_trailing : String → String
drop_trailing String.[] = ""
drop_trailing (String.◌∷◌ c s) =
    let rest = drop_trailing s in if is_empty rest && is_space c then "" else String.◌∷◌ c rest

-- `s.strip()`
unfoldable pub strip : String → String
unfolding drop_leading drop_trailing is_space
strip s = drop_trailing (drop_leading s)

-- `not s.strip()`
unfoldable pub is_blank : String → Bool
unfolding strip
is_blank s = is_empty (strip s)

-- `s[:n]`
abbrev pub take_text : ℕ → String → String
take_text zero s = ""
take_text (suc n) String.[] = ""
take_text (suc n) (String.◌∷◌ c s) = String.◌∷◌ c (take_text n s)

blank_example : is_blank "  \t " ≡ true
unfolding is_blank
blank_example = refl

strip_example : strip "  a b " ≡ "a b"
unfolding strip
strip_example = refl
