-- ===== src/Text.antt =====
-- The functions of <string.h>, <stdio.h> and <stdlib.h> that the models and services call, on C
-- strings given as the bytes before the NUL.
pub mod Decimal
use Prim.Native.Char.{code}
use Prim.Native.String.{String}
use c_framework_to_server.Base.{
  ℕ, zero, suc, ◌+◌, ◌-◌, ◌*◌, ◌/◌, ◌%◌, ◌^◌, Bool, true, false, ◌&&◌, ◌||◌, Option, none, some,
  List, [], ◌∷◌, ◌++◌, length, ltb, leb, ◌==◌, if◌then◌else◌,
}
use c_framework_to_server.Base.Int.{ℤ, pos, negsuc, neg}

-- The bytes of a literal in ASCII.
abbrev pub codes : String → List ℕ
codes String.[] = []
codes (String.◌∷◌ c s) = code c ∷ codes s

-- strcmp(a, b) == 0.
abbrev pub str_eq : List ℕ → List ℕ → Bool
str_eq [] [] = true
str_eq [] (b ∷ bs) = false
str_eq (a ∷ as') [] = false
str_eq (a ∷ as') (b ∷ bs) = (a == b) && str_eq as' bs

-- strlen(s) == 0.
abbrev pub is_empty : List ℕ → Bool
is_empty [] = true
is_empty (c ∷ s) = false

abbrev pub starts_with : (s prefix : List ℕ) → Bool
starts_with s [] = true
starts_with [] (p ∷ prefix) = false
starts_with (c ∷ s) (p ∷ prefix) = (c == p) && starts_with s prefix

-- strstr(s, part) != NULL.
abbrev pub strstr : (s part : List ℕ) → Bool
strstr [] part = is_empty part
strstr (c ∷ s) part = starts_with (c ∷ s) part || strstr s part

-- strcpy into an array of `size` chars. `none`: it writes behind the array.
abbrev pub strcpy : (size : ℕ) → List ℕ → Option (List ℕ)
strcpy size s = if ltb (length s) size then some s else none

-- The decimal digits of a number, lowest first in the recursion; ten digits hold an int.
unfoldable pub digits : (fuel n : ℕ) → (behind : List ℕ) → List ℕ
digits zero n behind = behind
digits (suc f) n behind = elim (ltb n 10) [
  | true ↦ (48 + n) ∷ behind
  | false ↦ digits f (n / 10) ((48 + n % 10) ∷ behind)
]

-- printf("%d").
unfoldable pub decimal : ℤ → List ℕ
unfolding digits
decimal (pos n) = digits 10 n []
decimal (negsuc n) = b'-' ∷ digits 10 (suc n) []

unfoldable pub atoi_digits : (acc : ℕ) → List ℕ → ℕ
atoi_digits acc [] = acc
atoi_digits acc (c ∷ s) =
    let rest = atoi_digits (acc * 10 + (c - 48)) s in if leb b'0' c && leb c b'9' then rest else acc

unfoldable pub atoi_sign : List ℕ → ℤ
unfolding atoi_digits
atoi_sign [] = pos 0
atoi_sign (c ∷ s) =
    if c == b'-'
    then neg (atoi_digits 0 s)
    else if c == b'+'
    then pos (atoi_digits 0 s)
    else pos (atoi_digits 0 (c ∷ s))

-- The number that atoi reads: white space, a sign and digits.
unfoldable pub atoi_value : List ℕ → ℤ
unfolding atoi_sign
atoi_value [] = pos 0
atoi_value (c ∷ s) =
    let rest = atoi_value s in
    if (c == 32) || (leb 9 c && leb c 13) then rest else atoi_sign (c ∷ s)

-- INT_MAX or INT_MIN for a number that no int holds.
abbrev pub clamp_int : ℤ → ℤ
clamp_int (pos n) = if ltb n (2 ^ 31) then pos n else pos (2 ^ 31 - 1)
clamp_int (negsuc n) = if ltb n (2 ^ 31) then negsuc n else negsuc (2 ^ 31 - 1)

-- atoi of the Win32 build's library, which saturates.
unfoldable pub atoi : List ℕ → ℤ
atoi s = clamp_int (atoi_value s)
