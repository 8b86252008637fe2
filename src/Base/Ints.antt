-- ===== src/Base/Ints.antt =====
-- `int` and the conversions between integer types.
use Prim.Native.Nat.{ℕ, ◌-◌, ◌%◌}
use mathlib.Core.Option.{Option, none, some}

-- `negsuc n` is -(n + 1).
pub data ℤ : Type 0 where
  pos : ℕ → ℤ
  negsuc : ℕ → ℤ

abbrev pub u32_mod : ℕ
u32_mod = 4294967296

-- `std::string::npos`, a `size_t`.
abbrev pub npos : ℕ
npos = 18446744073709551615

-- `unsigned int p = s.find(...)`: `npos` is cut down to 32 bits.
abbrev pub u32_of_pos : Option ℕ → ℕ
u32_of_pos none = 4294967295
u32_of_pos (some i) = i % u32_mod

-- `unsigned int u = i`
abbrev pub u32_of_int : ℤ → ℕ
u32_of_int (pos n) = n % u32_mod
u32_of_int (negsuc n) = (u32_mod - 1) - n % u32_mod
