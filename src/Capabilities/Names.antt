-- ===== src/Capabilities/Names.antt =====
-- Capability names: the pattern, the reserved prefixes, and `sorted` over a set of texts.
use Prim.Native.Char.{Char, code}
use Prim.Native.Nat.{compare as compare_ℕ, Ordering}
use text.Mathlib.Text.{is_lt, starts_with}
use Prim.Native.String.{compare}
use personal_agent_runtime.Base.{
  ℕ, suc, String, ◌<>◌, Bool, true, false, List, [], ◌∷◌, ◌==◌, string_eq, if◌then◌else◌, not, ◌&&◌,
  ◌||◌, leb, any,
}
use personal_agent_runtime.Base.Text.{strip}
use personal_agent_runtime.Store.{value_error, Result, ok, raised}

abbrev same_char : Char → Char → Bool
same_char c d = elim (compare_ℕ (code c) (code d)) [ Ordering.eq ↦ true | _ ↦ false ]

-- The character of `to` at the place of `c` in `from`
translate : String → String → Char → Char
translate String.[] to c = c
translate (String.◌∷◌ f from) String.[] c = c
translate (String.◌∷◌ f from) (String.◌∷◌ t to) c = if same_char c f then t else translate from to c

-- `str.lower`, as far as the pattern can tell. Of the characters outside ASCII only the Kelvin sign,
-- the last one here, has a lower case in ASCII; the pattern refuses all others in either case.
lower_char : Char → Char
unfolding translate
lower_char = translate "ABCDEFGHIJKLMNOPQRSTUVWXYZK" "abcdefghijklmnopqrstuvwxyzk"

unfoldable pub lower : String → String
unfolding lower_char
lower String.[] = ""
lower (String.◌∷◌ c s) = String.◌∷◌ (lower_char c) (lower s)

-- `[a-z0-9]`, `[a-z0-9._-]`
abbrev pub is_alphanumeric : Char → Bool
is_alphanumeric c =
    (leb b'a' (code c) && leb (code c) b'z') || (leb b'0' (code c) && leb (code c) b'9')

abbrev pub is_name_char : Char → Bool
is_name_char c = is_alphanumeric c || (same_char c "." || (same_char c "_" || same_char c "-"))

abbrev pub all_chars : (Char → Bool) → String → Bool
all_chars p String.[] = true
all_chars p (String.◌∷◌ c s) = p c && all_chars p s

abbrev pub text_length : String → ℕ
text_length String.[] = 0
text_length (String.◌∷◌ _ s) = suc (text_length s)

-- `_CAPABILITY_RE.fullmatch`
unfoldable pub matches_pattern : String → Bool
matches_pattern String.[] = false
matches_pattern (String.◌∷◌ c s) =
    is_alphanumeric c && (all_chars is_name_char s && leb (text_length s) 63)

abbrev pub reserved_prefixes : List String
reserved_prefixes = "credential" ∷ "secret" ∷ "production" ∷ "paid" ∷ "billing" ∷ "admin" ∷ []

unfoldable pub is_reserved : String → Bool
is_reserved value =
    any (λ p. value == p || (starts_with value (p <> ".") || starts_with value (p <> "-")))
      reserved_prefixes

unfoldable pub validate_capability : String → Result String
unfolding strip lower matches_pattern is_reserved
validate_capability capability =
    let value = lower (strip capability) in
    if not (matches_pattern value)
    then raised (value_error ("invalid capability: " <> capability))
    else if is_reserved value
    then raised (value_error ("capability cannot represent authority: " <> capability))
    else ok value

-- A text put in its place in a sorted list, unless it is there
unfoldable pub insert_text : String → List String → List String
insert_text s [] = s ∷ []
insert_text s (t ∷ ts) =
    let rest = insert_text s ts in
    if s == t then t ∷ ts else if is_lt (compare s t) then s ∷ t ∷ ts else t ∷ rest

unfoldable pub sort_texts : List String → List String
unfolding insert_text
sort_texts [] = []
sort_texts (s ∷ ss) = insert_text s (sort_texts ss)

unfoldable pub validate_all : List String → Result (List String)
unfolding validate_capability
validate_all [] = ok []
validate_all (v ∷ vs) = elim (validate_capability v) [
  | raised e ↦ raised e
  | ok value ↦ elim (validate_all vs) [ raised e ↦ raised e | ok values ↦ ok (value ∷ values) ]
]

-- `sorted({validate_capability(value) for value in values})`
unfoldable pub normalize_capabilities : List String → Result (List String)
unfolding validate_all sort_texts
normalize_capabilities values = elim (validate_all values) [
  | raised e ↦ raised e
  | ok valid ↦ ok (sort_texts valid)
]
