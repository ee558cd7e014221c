-- ===== src/Basic/Hex.antt =====
-- HexToStr and StrToHex undo one another.
use c_framework_to_server.Base.{
  ℕ, zero, suc, ◌+◌, ◌*◌, ◌/◌, ◌%◌, ◌<◌, ◌≤◌, ◌≡◌, refl, ap, some, List, [], ◌∷◌, ◌++◌, arith,
  length, take, AllBytes, All, length-append, length-take, subst, ◌∙◌,
}
use c_framework_to_server.Base.CStrings.{strlen, IsChar, strlen-append}
use c_framework_to_server.Basic.{
  hex_value, hex_digit, hex_chars, take_bytes, hex_to_str, str_to_hex,
}

hex_value-hex_digit : (d : ℕ) → d < 16 → hex_value (hex_digit d) ≡ d
unfolding hex_value hex_digit
hex_value-hex_digit d h = ground arith

hex_digit-IsChar : (d : ℕ) → d < 16 → IsChar (hex_digit d)
unfolding hex_digit
hex_digit-IsChar d h = ground arith

pair_value :
    (b : ℕ)
    → b < 256
    → (hex_value (hex_digit (b / 16)) * 16 + hex_value (hex_digit (b % 16))) % 256 ≡ b
pair_value b h =
    omega (
      arith,
      hex_value-hex_digit (b / 16) (omega arith),
      hex_value-hex_digit (b % 16) (omega arith),
    )

length-hex_chars : (src : List ℕ) → length (hex_chars src) ≡ 2 * length src
unfolding hex_chars
length-hex_chars [] = refl
length-hex_chars (b ∷ src) = omega (arith, length-hex_chars src)

hex_chars-IsChar : (src : List ℕ) → AllBytes src → All IsChar (hex_chars src)
unfolding hex_chars
hex_chars-IsChar [] h = tt
hex_chars-IsChar (b ∷ src) h = (
  hex_digit-IsChar (b / 16) (omega arith),
  (hex_digit-IsChar (b % 16) (omega arith), hex_chars-IsChar src h.1),
)

str_to_hex-hex_chars :
    (src rest : List ℕ) → AllBytes src → str_to_hex (hex_chars src ++ rest) (length src) ≡ some src
unfolding str_to_hex hex_chars
str_to_hex-hex_chars [] rest h = refl
str_to_hex-hex_chars (b ∷ src) rest h = rw (str_to_hex-hex_chars src rest h.1, pair_value b h.0)

take_bytes-take : (src : List ℕ) (n : ℕ) → n ≤ length src → take_bytes src n ≡ some (take n src)
unfolding take_bytes
take_bytes-take src zero h = refl
take_bytes-take [] (suc n) h = absurd (omega arith)
take_bytes-take (b ∷ src) (suc n) h = rw (take_bytes-take src n (omega arith))

AllBytes-take : (n : ℕ) (src : List ℕ) → AllBytes src → AllBytes (take n src)
AllBytes-take zero src h = tt
AllBytes-take (suc n) [] h = tt
AllBytes-take (suc n) (b ∷ src) h = (h.0, AllBytes-take n src h.1)

length-take_le : (n : ℕ) (src : List ℕ) → n ≤ length src → length (take n src) ≡ n
length-take_le n src h = omega (arith, length-take n src)

-- For n bytes of a source that holds as many, HexToStr writes a C string of length 2 n, in 2 n + 1
-- bytes, and StrToHex turns it back into the n bytes.
pub str_to_hex-hex_to_str :
    (src : List ℕ) (n : ℕ)
    → AllBytes src
    → n ≤ length src
    → (text : List ℕ) × (hex_to_str src n ≡ some text)
      × (length text ≡ 2 * n + 1)
      × (strlen text ≡ 2 * n)
      × (str_to_hex text n ≡ some (take n src))
unfolding hex_to_str
str_to_hex-hex_to_str src n h le =
    let bs = take n src in
    let len : length bs ≡ n = length-take_le n src le in
    let bytes = AllBytes-take n src h in
    (
      hex_chars bs ++ 0 ∷ [],
      rw (take_bytes-take src n le, hex_to_str),
      omega (arith, length-append (hex_chars bs) (0 ∷ []), length-hex_chars bs),
      strlen-append (hex_chars bs) [] (hex_chars-IsChar bs bytes)
          ∙ length-hex_chars bs
          ∙ ap (λ k. 2 * k) len,
      subst (λ k. str_to_hex (hex_chars bs ++ 0 ∷ []) k ≡ some bs) len
          (str_to_hex-hex_chars bs (0 ∷ []) bytes),
    )
