-- ===== src/Prelude/Int64.antt =====
-- Go's int64: a sum or a difference is taken modulo 2^64 and read as a signed number.
use Prim.Native.Nat.{ℕ, ◌+◌, ◌-◌, ◌%◌, ◌^◌, ◌≤◌, ◌<◌}
use mathlib.Core.Path.{◌≡◌}
use mathlib.Core.Bool.{Bool, false, ◌&&◌}
use native.Mathlib.Omega.{arith}
use nexusapi_enterprise.Prelude.Tests.{ltb, leb, if◌then◌else◌}
use nexusapi_enterprise.Prelude.Int.{
  ltb_ℤ, ◌-ℤ◌, ℤ, pos, negsuc, pos_part, neg_part, +ℤ_parts, -ℤ_parts, eq_of_parts,
}

abbrev pub two_63 : ℕ
two_63 = 2 ^ 63

abbrev pub two_64 : ℕ
two_64 = 2 ^ 64

-- The int64 that has the low 64 bits of an integer.
unfoldable pub i64 : ℤ → ℤ
i64 (pos n) = if ltb (n % two_64) two_63 then pos (n % two_64) else negsuc (two_64 - n % two_64 - 1)
i64 (negsuc n) =
    if ltb (n % two_64) two_63 then negsuc (n % two_64) else pos (two_64 - n % two_64 - 1)

-- The integer is an int64, as two orders between sums of its parts.
abbrev pub IsInt64 : ℤ → Type 0
IsInt64 z = (pos_part z < two_63 + neg_part z) × (neg_part z ≤ two_63 + pos_part z)

-- The same as a test: what a BIGINT column can hold.
abbrev pub fits : ℤ → Bool
fits z = ltb (pos_part z) (two_63 + neg_part z) && leb (neg_part z) (two_63 + pos_part z)

pub i64-IsInt64 : (z : ℤ) → IsInt64 (i64 z)
unfolding i64
i64-IsInt64 (pos n) = ground arith
i64-IsInt64 (negsuc n) = ground arith

pub i64_id : (z : ℤ) → IsInt64 z → i64 z ≡ z
unfolding i64
i64_id (pos n) h = ground arith
i64_id (negsuc n) h = ground arith

-- In range the integer is kept: the form that `omega` reads, with `i64` shut.
pub i64_parts :
    (z : ℤ)
    → pos_part z < two_63 + neg_part z
    → neg_part z ≤ two_63 + pos_part z
    → pos_part (i64 z) + neg_part z ≡ neg_part (i64 z) + pos_part z
i64_parts z h k = rw (i64_id z (h, k)) (omega arith)

pub ruleset i64_laws = (arith, +ℤ_parts, -ℤ_parts, eq_of_parts, i64_parts)

-- A difference of equals is not positive: the test that ends the loops.
pub stops : (z : ℤ) → ltb_ℤ (pos 0) (i64 (z -ℤ z)) ≡ false
stops z = let e : i64 (z -ℤ z) ≡ pos 0 = omega i64_laws in rw e
