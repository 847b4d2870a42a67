-- ===== src/Base/Int.antt =====
-- Integers over the native numbers, for differences that may be negative.
use Prim.Native.Nat.{ℕ, ◌+◌, ◌-◌}
use mathlib.Core.Bool.{Bool, true, false}
use pyzmq.Base.Tests.{if◌then◌else◌, ltb}

-- `negsuc n` is -(n + 1).
pub data ℤ : Type 0 where
  pos negsuc : ℕ → ℤ

abbrev pub is_negative : ℤ → Bool
is_negative (pos n) = false
is_negative (negsuc n) = true

-- `a - b`
abbrev pub minus : ℕ → ℕ → ℤ
minus a b = if ltb a b then negsuc (b - a - 1) else pos (a - b)

-- `z - (later - earlier)`
abbrev pub less_elapsed : ℤ → ℕ → ℕ → ℤ
less_elapsed (pos n) earlier later = minus (n + earlier) later
less_elapsed (negsuc n) earlier later = minus earlier (later + n + 1)
