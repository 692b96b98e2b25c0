-- ===== src/Base/Int.antt =====
-- Go's signed integers over the native numbers, under the library's names. An `int` is 64 bits
-- wide here; every value that the codecs compute stays below 2 ^ 33, so sums of them do not wrap.
use Prim.Native.Nat.{ℕ, suc, ◌-◌, ◌/◌, ◌%◌, ◌^◌, ◌<◌}
use mathlib.Core.Bool.{Bool, true}
use bacnet_go.Base.Tests.{ltb, if◌then◌else◌}

-- `negsuc n` is -(n + 1).
pub data ℤ : Type 0 where
  pos : ℕ → ℤ
  negsuc : ℕ → ℤ

-- The least significant `w` bits of the two's complement of a signed number: a conversion to an
-- unsigned type of `w` bits.
abbrev pub to_unsigned : ℕ → ℤ → ℕ
to_unsigned w (pos n) = n % 2 ^ w
to_unsigned w (negsuc n) = 2 ^ w - 1 - n % 2 ^ w

-- The conversion back, of a value below `2 ^ (w + 1)`, to the signed type of `w + 1` bits.
abbrev pub to_signed : ℕ → ℕ → ℤ
to_signed w n = if ltb n (2 ^ w) then pos n else negsuc (2 ^ (suc w) - 1 - n)

-- The arithmetic shift `v >> k`, which rounds down.
abbrev pub asr : ℤ → ℕ → ℤ
asr (pos n) k = pos (n / 2 ^ k)
asr (negsuc n) k = negsuc (n / 2 ^ k)

-- `-b ≤ v` and `v < b`.
abbrev pub ge_neg : ℤ → ℕ → Bool
ge_neg (pos n) b = true
ge_neg (negsuc n) b = ltb n b

abbrev pub lt_pos : ℤ → ℕ → Bool
lt_pos (pos n) b = ltb n b
lt_pos (negsuc n) b = true

-- The range of an int32.
abbrev pub IsInt32 : ℤ → Type 0
IsInt32 (pos n) = n < 2 ^ 31
IsInt32 (negsuc n) = n < 2 ^ 31
