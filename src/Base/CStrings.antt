-- ===== src/Base/CStrings.antt =====
-- C strings in memory: the bytes before the first NUL.
use Prim.Native.Nat.{ℕ, ◌<◌}
use mathlib.Core.Path.{◌≡◌, refl, ap}
use mathlib.Core.List.{List, [], ◌∷◌, ◌++◌}
use native.Mathlib.Omega.{arith}
use c_framework_to_server.Base.Lists.{length, All}
use c_framework_to_server.Base.Tests.{◌==◌, if◌then◌else◌}

abbrev pub IsChar : ℕ → Type 0
IsChar c = (0 < c) × (c < 256)

-- The string that a pointer to these bytes stands for.
unfoldable pub c_str : List ℕ → List ℕ
c_str [] = []
c_str (c ∷ cs) = if c == 0 then [] else c ∷ c_str cs

unfoldable pub strlen : List ℕ → ℕ
unfolding c_str
strlen mem = length (c_str mem)

pub c_str-append : (s rest : List ℕ) → All IsChar s → c_str (s ++ 0 ∷ rest) ≡ s
unfolding c_str
c_str-append [] rest h = refl
c_str-append (c ∷ s) rest h = ground (arith, c_str-append s rest h.1)

pub strlen-append : (s rest : List ℕ) → All IsChar s → strlen (s ++ 0 ∷ rest) ≡ length s
unfolding strlen
strlen-append s rest h = ap length (c_str-append s rest h)
