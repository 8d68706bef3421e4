-- ===== src/Common/Int64.antt =====
-- Go's int64: an integer between -2^63 and 2^63 - 1, whose sums and differences wrap around.
use Prim.Native.Nat.{ℕ, ◌-◌, ◌%◌}
use mathlib.Core.Path.{◌≡◌}
use native.Mathlib.Omega.{arith}
use yunhou_users.Common.Tests.{ltb, if◌then◌else◌}
use yunhou_users.Common.Int.{ℤ, pos, negsuc, ◌+ℤ◌, ◌-ℤ◌, ◌≤ℤ◌}

abbrev pub max_int64 : ℕ
max_int64 = 9223372036854775807

abbrev pub min_int64 : ℤ
min_int64 = negsuc 9223372036854775807

abbrev pub IsInt64 : ℤ → Type 0
IsInt64 a = (min_int64 ≤ℤ a) × (a ≤ℤ pos max_int64)

-- The bit pattern of an integer, below 2^64, and the integer that a pattern stands for.
abbrev pub bits64 : ℤ → ℕ
bits64 (pos n) = n % 18446744073709551616
bits64 (negsuc n) = 18446744073709551615 - n % 18446744073709551616

abbrev pub signed64 : ℕ → ℤ
signed64 w = if ltb w 9223372036854775808 then pos w else negsuc (18446744073709551615 - w)

unfoldable pub wrap64 : ℤ → ℤ
wrap64 a = signed64 (bits64 a)

unfoldable pub add64 : ℤ → ℤ → ℤ
unfolding wrap64 ◌+ℤ◌
add64 a b = wrap64 (a +ℤ b)

unfoldable pub sub64 : ℤ → ℤ → ℤ
unfolding wrap64 ◌-ℤ◌
sub64 a b = wrap64 (a -ℤ b)

pub wrap64-IsInt64 : (a : ℤ) → IsInt64 (wrap64 a)
unfolding wrap64
wrap64-IsInt64 (pos n) = ground arith
wrap64-IsInt64 (negsuc n) = ground arith

pub wrap64_id : (a : ℤ) → IsInt64 a → wrap64 a ≡ a
unfolding wrap64
wrap64_id (pos n) h = ground arith
wrap64_id (negsuc n) h = ground arith

pub add64_exact : (a b : ℤ) → IsInt64 (a +ℤ b) → add64 a b ≡ a +ℤ b
unfolding add64
add64_exact a b h = wrap64_id (a +ℤ b) h

pub sub64_exact : (a b : ℤ) → IsInt64 (a -ℤ b) → sub64 a b ≡ a -ℤ b
unfolding sub64
sub64_exact a b h = wrap64_id (a -ℤ b) h
