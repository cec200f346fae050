-- ===== src/Prelude/Ints.antt =====
-- Go's signed integers. A value of type int8, int16, int32, int64 or int is an integer ℤ, and the
-- conversions between the types wrap round modulo a power of two, written out as `m`.
use Prim.Native.Nat.{ℕ, ◌+◌, ◌-◌, ◌%◌, ◌<◌}
use mathlib.Core.Path.{◌≡◌}
use mathlib.Core.Bool.{Bool, false}
use native.Mathlib.Omega.{arith}
use native.Mathlib.Nat.{mod-eq_of_lt, mod-lt}
use thriftgo.Prelude.Tests.{ltb, ◌==◌, if◌then◌else◌}

-- `negsuc n` is -(n + 1).
pub data ℤ : Type 0 where
  pos : ℕ → ℤ
  negsuc : ℕ → ℤ

abbrev pub eq_ℤ : ℤ → ℤ → Bool
eq_ℤ (pos a) (pos b) = a == b
eq_ℤ (negsuc a) (negsuc b) = a == b
eq_ℤ _ _ = false

-- The number of rounds of `for i := 0; i < size; i++`.
abbrev pub rounds : ℤ → ℕ
rounds (pos n) = n
rounds (negsuc n) = 0

-- The bits of an integer in a word of `m` values, as in `uint32(v)`.
abbrev pub unsigned : ℕ → ℤ → ℕ
unsigned m (pos n) = n % m
unsigned m (negsuc n) = m - 1 - n % m

-- The integer that the bits of a word stand for, as in `int32(u)`.
abbrev pub signed : ℕ → ℕ → ℤ
signed m u = if ltb (u + u) m then pos u else negsuc (m - 1 - u)

-- The conversion of an integer to a signed type of `m` values, as in `int8(typeID)`.
abbrev pub wrap_int : ℕ → ℤ → ℤ
wrap_int m z = signed m (unsigned m z)

-- The integers of the signed type of `m` values.
abbrev pub Fits : ℕ → ℤ → Type 0
Fits m (pos n) = n + n < m
Fits m (negsuc n) = n + n + 1 < m

pub wrap_int-Fits : (m : ℕ) (z : ℤ) → Fits m z → wrap_int m z ≡ z
wrap_int-Fits m (pos n) h = let e : n % m ≡ n = mod-eq_of_lt (omega arith) in rw e (ground arith)
wrap_int-Fits m (negsuc n) h = let e : n % m ≡ n = mod-eq_of_lt (omega arith) in rw e (ground arith)

pub unsigned-lt : (m : ℕ) (z : ℤ) → 0 < m → unsigned m z < m
unsigned-lt m (pos n) h = mod-lt n h
unsigned-lt m (negsuc n) h = omega arith
