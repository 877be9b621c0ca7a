-- ===== src/Prelude/Words.antt =====
-- Machine-width numbers. `usize` and `isize` have 64 bits. A value is a plain number; a conversion
-- or an addition that Rust checks returns an option, and one that wraps says so.
use Prim.Native.Nat.{ℕ, ◌+◌, ◌-◌, ◌*◌, ◌%◌, ◌^◌}
use mathlib.Core.Option.{Option, none, some}
use gstsmith_rs.Prelude.Tests.{ltb, leb, if◌then◌else◌}

abbrev pub u8_mod : ℕ
u8_mod = 2 ^ 8

abbrev pub u16_mod : ℕ
u16_mod = 2 ^ 16

abbrev pub u32_mod : ℕ
u32_mod = 2 ^ 32

abbrev pub u64_mod : ℕ
u64_mod = 2 ^ 64

abbrev pub i32_max : ℕ
i32_max = 2 ^ 31 - 1

abbrev pub isize_max : ℕ
isize_max = 2 ^ 63 - 1

-- `T::try_from(n)` for a type with the values below `m`.
abbrev pub try_below : ℕ → ℕ → Option ℕ
try_below m n = if ltb n m then some n else none

-- `a.checked_add(b)` in a type with the values below `m`.
abbrev pub checked_add : ℕ → ℕ → ℕ → Option ℕ
checked_add m a b = if ltb (a + b) m then some (a + b) else none

-- `a.checked_mul(b)` in a type with the values below `m`.
abbrev pub checked_mul : ℕ → ℕ → ℕ → Option ℕ
checked_mul m a b = if ltb (a * b) m then some (a * b) else none

-- `a.checked_sub(b)`.
abbrev pub checked_sub : ℕ → ℕ → Option ℕ
checked_sub a b = if leb b a then some (a - b) else none

-- `a.wrapping_add(b)` and `fetch_add` on a `u64`.
abbrev pub wrapping_add64 : ℕ → ℕ → ℕ
wrapping_add64 a b = (a + b) % u64_mod
