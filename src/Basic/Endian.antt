-- ===== src/Basic/Endian.antt =====
-- The byte-order macros, which both the frame heads and the stream route numbers go through.
use c_framework_to_server.Base.{ℕ, ◌/◌, ◌%◌, ◌^◌, ◌<◌, ◌≡◌, arith}
use c_framework_to_server.Basic.{endian_word, endian_dwrd}

-- Below 2 ^ 32, ENDIAN_DWRD is its own inverse, stays below 2 ^ 32, and puts the lowest byte on top.
pub endian_dwrd_involutive :
    (d : ℕ)
    → d < 2 ^ 32
    → (endian_dwrd (endian_dwrd d) ≡ d)
      × (endian_dwrd d < 2 ^ 32)
      × (endian_dwrd d / 2 ^ 24 ≡ d % 256)
unfolding endian_dwrd
endian_dwrd_involutive d h = omega arith

-- Below 2 ^ 16, ENDIAN_WORD is its own inverse.
pub endian_word_involutive :
    (w : ℕ) → w < 2 ^ 16 → (endian_word (endian_word w) ≡ w) × (endian_word w < 2 ^ 16)
unfolding endian_word
endian_word_involutive w h = omega arith

pub endian_dwrd-lt : (d : ℕ) → endian_dwrd d < 2 ^ 32
unfolding endian_dwrd
endian_dwrd-lt d = omega arith
