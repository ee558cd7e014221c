-- ===== src/Basic.antt =====
-- The byte routines of cFrameworkToServer/utils/basic.c and the macros of
-- cFrameworkToServer/utils/basic.h: byte order, hexadecimal text, hashes and Trim. A C string is
-- the list of its bytes up to the NUL.
pub mod Hex
pub mod Endian
pub mod Hashes
pub mod Strings
pub mod Tests
use Prim.Native.Nat.{bit_xor}
use c_framework_to_server.Base.{
  ℕ, zero, suc, ◌+◌, ◌-◌, ◌*◌, ◌/◌, ◌%◌, ◌^◌, Bool, Option, none, some, List, [], ◌∷◌, ◌++◌, ◌&&◌,
  not, ltb, leb, ◌==◌, if◌then◌else◌,
}

-- ENDIAN_WORD: the masks and shifts of an unsigned int, byte by byte.
pub endian_word : ℕ → ℕ
endian_word w = w % 256 * 2 ^ 8 + w / 2 ^ 8 % 256

-- ENDIAN_DWRD. The four shifted bytes take different bits, so `|` is their sum.
unfoldable pub endian_dwrd : ℕ → ℕ
endian_dwrd d =
    d % 256 * 2 ^ 24 + d / 2 ^ 8 % 256 * 2 ^ 16 + d / 2 ^ 16 % 256 * 2 ^ 8 + d / 2 ^ 24 % 256

-- toupper in the C locale.
pub toupper : ℕ → ℕ
toupper c = if leb b'a' c && leb c b'z' then c - 32 else c

-- `s = toupper(h) - 0x30; if (s > 9) s -= 7;` in an unsigned char.
pub hex_value : ℕ → ℕ
unfolding toupper
hex_value h = let s = (toupper h + 256 - 0x30) % 256 in if ltb 9 s then (s + 256 - 7) % 256 else s

-- The first 2 * nLen bytes of the source give nLen bytes; `none` when the source is shorter.
pub str_to_hex : (src : List ℕ) (n : ℕ) → Option (List ℕ)
unfolding hex_value
str_to_hex src zero = some []
str_to_hex [] (suc n) = none
str_to_hex (h1 ∷ []) (suc n) = none
str_to_hex (h1 ∷ h2 ∷ src) (suc n) = elim (str_to_hex src n) [
  | none ↦ none
  | some dest ↦ some ((hex_value h1 * 16 + hex_value h2) % 256 ∷ dest)
]

-- `d = 48 + digit; if (d > 57) d = d + 7;`
pub hex_digit : ℕ → ℕ
hex_digit d = if ltb 57 (48 + d) then 48 + d + 7 else 48 + d

-- The characters without the NUL that follows them.
hex_chars : List ℕ → List ℕ
unfolding hex_digit
hex_chars [] = []
hex_chars (b ∷ src) = hex_digit (b / 16) ∷ hex_digit (b % 16) ∷ hex_chars src

take_bytes : (src : List ℕ) (n : ℕ) → Option (List ℕ)
take_bytes src zero = some []
take_bytes [] (suc n) = none
take_bytes (b ∷ src) (suc n) = elim (take_bytes src n) [ none ↦ none | some bs ↦ some (b ∷ bs) ]

-- What HexToStr writes: two characters for each of the first nLen bytes, and a NUL. `none` when
-- the source is shorter.
pub hex_to_str : (src : List ℕ) (n : ℕ) → Option (List ℕ)
unfolding hex_chars take_bytes
hex_to_str src n = elim (take_bytes src n) [ none ↦ none | some bs ↦ some (hex_chars bs ++ 0 ∷ []) ]

-- calc_hash: the loop runs over the bytes of the key.
calc_hash_loop : ℕ → List ℕ → ℕ
calc_hash_loop hash [] = hash
calc_hash_loop hash (c ∷ key) = calc_hash_loop (bit_xor (hash * 16777619 % 2 ^ 32) c) key

abbrev pub calc_hash : List ℕ → ℕ
unfolding calc_hash_loop
calc_hash key = calc_hash_loop 0 key

-- A char is signed: as an unsigned int a byte from 128 on is 2 ^ 32 - 256 larger.
pub sign_extend : ℕ → ℕ
sign_extend c = if ltb c 128 then c else c + (2 ^ 32 - 256)

tstr_hash_loop : ℕ → List ℕ → ℕ
unfolding sign_extend
tstr_hash_loop h [] = h
tstr_hash_loop h (c ∷ str) = tstr_hash_loop ((h * 131 % 2 ^ 32 + sign_extend c) % 2 ^ 32) str

-- `none` is the NULL pointer.
pub tstr_hash : Option (List ℕ) → ℕ
unfolding tstr_hash_loop
tstr_hash none = 0
tstr_hash (some str) = tstr_hash_loop 0 str

-- The loop of Trim, over the bytes of the string.
unfoldable pub without_spaces : List ℕ → List ℕ
without_spaces [] = []
without_spaces (c ∷ str) =
    if not (c == b' ') && not (c == 0) then c ∷ without_spaces str else without_spaces str

-- `return '\0'` is the NULL pointer. (malloc is taken to succeed.)
unfoldable pub trim : List ℕ → Option (List ℕ)
unfolding without_spaces
trim [] = none
trim (c ∷ str) = some (without_spaces (c ∷ str))
