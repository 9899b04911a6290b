-- ===== src/Base/Word.antt =====
-- Casts to the fixed widths of the 32-bit target, and shifts.
use Prim.Native.Nat.{ℕ, ◌+◌, ◌-◌, ◌*◌, ◌/◌, ◌%◌, ◌^◌}

abbrev pub u8 : ℕ → ℕ
u8 n = n % 2 ^ 8

abbrev pub u16 : ℕ → ℕ
u16 n = n % 2 ^ 16

abbrev pub u32 : ℕ → ℕ
u32 n = n % 2 ^ 32

-- `x << k` in a 32-bit register, and `x >> k` of an unsigned value.
abbrev pub shl : ℕ → ℕ → ℕ
shl x k = u32 (x * 2 ^ k)

abbrev pub shr : ℕ → ℕ → ℕ
shr x k = x / 2 ^ k

-- `a - b` in a 32-bit and in a 16-bit register.
abbrev pub sub32 : ℕ → ℕ → ℕ
sub32 a b = u32 (a + 2 ^ 32 - b)

abbrev pub sub16 : ℕ → ℕ → ℕ
sub16 a b = u16 (a + 2 ^ 16 - b)
