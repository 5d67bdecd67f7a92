-- ===== src/Base/Text/Strip.antt =====
-- What `strip` leaves of a text.
use Prim.Native.Char.{Char}
use Prim.Native.String.{String}
use mathlib.Core.Path.{◌≡◌, refl, sym, ◌∙◌}
use mathlib.Core.Logic.{inl, inr}
use mathlib.Core.Bool.{Bool, true, false, ◌&&◌}
use native.Mathlib.Omega.{arith}
use personal_agent_runtime.Base.Tests.{Bool-cases}
use personal_agent_runtime.Base.Text.{
  is_space, is_empty, drop_leading, drop_trailing, strip, is_blank,
}

all_space : String → Bool
all_space String.[] = true
all_space (String.◌∷◌ c s) = is_space c && all_space s

all_space-drop_leading : (s : String) → all_space (drop_leading s) ≡ all_space s
unfolding drop_leading all_space
all_space-drop_leading String.[] = refl
all_space-drop_leading (String.◌∷◌ c s) = elim (Bool-cases (is_space c)) [
  | inl e ↦ rw e (all_space-drop_leading s)
  | inr e ↦ rw e (rw e refl)
]

is_empty-drop_trailing : (s : String) → is_empty (drop_trailing s) ≡ all_space s
unfolding drop_trailing all_space
is_empty-drop_trailing String.[] = refl
is_empty-drop_trailing (String.◌∷◌ c s) = ground (arith, is_empty-drop_trailing s)

all_space-drop_trailing : (s : String) → all_space (drop_trailing s) ≡ all_space s
unfolding drop_trailing all_space
all_space-drop_trailing String.[] = refl
all_space-drop_trailing (String.◌∷◌ c s) =
    ground (arith, all_space-drop_trailing s, is_empty-drop_trailing s)

is_blank-all_space : (s : String) → is_blank s ≡ all_space s
unfolding is_blank
is_blank-all_space s = is_empty-drop_trailing (drop_leading s) ∙ all_space-drop_leading s

-- A stripped text is blank only if the text was.
pub is_blank-strip : (s : String) → is_blank (strip s) ≡ is_blank s
unfolding strip
is_blank-strip s =
    is_blank-all_space (strip s)
    ∙ all_space-drop_trailing (drop_leading s)
    ∙ all_space-drop_leading s
    ∙ sym (is_blank-all_space s)

-- A text that begins with anything but white space is not blank.
pub is_blank-head : (c : Char) (s : String) → is_space c ≡ false → is_blank (String.◌∷◌ c s) ≡ false
unfolding all_space
is_blank-head c s e = is_blank-all_space (String.◌∷◌ c s) ∙ rw e refl
