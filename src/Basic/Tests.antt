-- ===== src/Basic/Tests.antt =====
-- The theorems on basic.c and basic.h at concrete numbers and strings.
use c_framework_to_server.Base.{ℕ, ◌+◌, ◌*◌, some, List, [], ◌∷◌, ◌≡◌, arith, length}
use c_framework_to_server.Base.CStrings.{strlen}
use c_framework_to_server.Basic.{str_to_hex, hex_to_str}
use c_framework_to_server.Basic.Hex.{str_to_hex-hex_to_str}

abbrev bytes : List ℕ
bytes = 0 ∷ 255 ∷ 18 ∷ []

str_to_hex-hex_to_str_example :
    (text : List ℕ) × (hex_to_str bytes 2 ≡ some text)
    × (length text ≡ 2 * 2 + 1)
    × (strlen text ≡ 2 * 2)
    × (str_to_hex text 2 ≡ some (0 ∷ 255 ∷ []))
str_to_hex-hex_to_str_example = str_to_hex-hex_to_str bytes 2 (omega arith) (omega arith)
