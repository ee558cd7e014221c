-- ===== src/Base/Words.antt =====
-- Bytes and words of the machine: unsigned values as native numbers with their wrap-around.
use Prim.Native.Nat.{ℕ, ◌%◌, ◌^◌, ◌<◌}
use mathlib.Core.Path.{◌≡◌}
use mathlib.Core.List.{List}
use native.Mathlib.Omega.{arith}
use c_framework_to_server.Base.Lists.{All}

abbrev pub u8_mod : ℕ
u8_mod = 2 ^ 8

abbrev pub u16_mod : ℕ
u16_mod = 2 ^ 16

abbrev pub u32_mod : ℕ
u32_mod = 2 ^ 32

abbrev pub IsByte : ℕ → Type 0
IsByte b = b < 256

abbrev pub AllBytes : List ℕ → Type 0
AllBytes = All IsByte

-- A residue of a residue: wrapping early and wrapping late agree.
pub mod_mod_16_32 : (x : ℕ) → x % 2 ^ 32 % 2 ^ 16 ≡ x % 2 ^ 16
mod_mod_16_32 x = omega arith
