-- ===== src/Base/Int.antt =====
-- Python's signed integers over the native numbers.
use Prim.Native.Nat.{ℕ, suc, ◌+◌, ◌^◌, ◌≤◌}
use native.Mathlib.Decide.{ℕ_discrete}
use mathlib.Core.Bool.{Bool}
use personal_agent_runtime.Base.Equality.{Eq}
use personal_agent_runtime.Base.Tests.{ltb, leb}

-- `negsuc n` is -(n + 1).
pub data ℤ : Type 0 where
  pos : ℕ → ℤ
  negsuc : ℕ → ℤ

abbrev pub pos_part : ℤ → ℕ
pos_part (pos n) = n
pos_part (negsuc n) = 0

abbrev pub neg_part : ℤ → ℕ
neg_part (pos n) = 0
neg_part (negsuc n) = suc n

abbrev pub ltb_ℤ : ℤ → ℤ → Bool
ltb_ℤ a b = ltb (pos_part a + neg_part b) (pos_part b + neg_part a)

abbrev pub leb_ℤ : ℤ → ℤ → Bool
leb_ℤ a b = leb (pos_part a + neg_part b) (pos_part b + neg_part a)

infix 50 ◌≤ℤ◌
abbrev pub ◌≤ℤ◌ : ℤ → ℤ → Type 0
a ≤ℤ b = pos_part a + neg_part b ≤ pos_part b + neg_part a

-- What an SQLite INTEGER column holds: -2^63 up to 2^63 - 1.
abbrev pub fits_sqlite : ℤ → Bool
fits_sqlite (pos n) = ltb n (2 ^ 63)
fits_sqlite (negsuc n) = ltb n (2 ^ 63)

ℤ-discrete : Discrete ℤ
ℤ-discrete = hlevel (ℕ_discrete)

instance unfoldable pub int_eq : Eq ℤ
unfolding ℤ-discrete
int_eq = record { dec = ℤ-discrete }
