-- ===== src/Random.antt =====
-- The pseudo-random generator of cFrameworkToServer/utils/random.c: three 16-bit digits `_x` are
-- multiplied by the digits `_a` of a constant, and `_c` is added. The C code keeps them in global
-- arrays; here they are the record `State`, which each call takes and returns.
pub mod Step
pub mod Range
pub mod Tests
use c_framework_to_server.Base.{
  ℕ, ◌+◌, ◌-◌, ◌*◌, ◌/◌, ◌%◌, ◌^◌, Option, none, some, List, [], ◌∷◌, ◌++◌, take, ltb,
  if◌then◌else◌,
}
use c_framework_to_server.Base.Int.{ℤ, pos, pos_part, ◌+ℤ◌, ◌-ℤ◌, ltb_ℤ}

pub record State : Type 0 where
  pub x0 : ℕ
  pub x1 : ℕ
  pub x2 : ℕ
  pub a0 : ℕ
  pub a1 : ℕ
  pub a2 : ℕ
  pub c : ℕ

-- LOW and HIGH of a uint32_t.
abbrev pub low : ℕ → ℕ
low x = x % 2 ^ 16

abbrev pub high : ℕ → ℕ
high x = x / 2 ^ 16 % 2 ^ 16

-- CARRY, whose sum is a uint32_t.
abbrev pub carry : ℕ → ℕ → ℕ
carry x y = if ltb 0xffff ((x + y) % 2 ^ 32) then 1 else 0

-- ADDEQU(x, y, z) leaves LOW(x + y) in x and CARRY(x, y) in z.
abbrev pub add_equ : ℕ → ℕ → ℕ
add_equ x y = low ((x + y) % 2 ^ 32)

-- The product of MUL, a uint32_t.
abbrev pub mul : ℕ → ℕ → ℕ
mul x y = x * y % 2 ^ 32

pub srand_next : State → State
srand_next s =
    let p = mul s.a0 s.x0 in
    let p0 = add_equ (low p) s.c in
    let c0 = carry (low p) s.c in
    let p1 = add_equ (high p) c0 in
    let c1 = carry (high p) c0 in
    let q = mul s.a0 s.x1 in
    let p1' = add_equ p1 (low q) in
    let c0' = carry p1 (low q) in
    let r = mul s.a1 s.x0 in
    let l =
      (c0' + c1 + carry p1' (low r) + high q + high r + s.a0 * s.x2 + s.a1 * s.x1 + s.a2 * s.x0)
      % 2 ^ 32 in
    record s { x0 = low p0; x1 = low ((p1' + low r) % 2 ^ 32); x2 = low l }

-- The argument is an int32_t, given as its bit pattern.
pub srand_init : ℕ → State → State
srand_init seed s = record s {
  x0 = 0x330e;
  x1 = low seed;
  x2 = high seed;
  a0 = 0xe66d;
  a1 = 0xdeec;
  a2 = 0x0005;
  c = 0x000b;
}

-- The sum is a uint32_t.
pub srand_get_int32 : State → ℕ × State
srand_get_int32 s = let t = srand_next s in ((t.x2 * 2 ^ 15 % 2 ^ 32 + t.x1 / 2) % 2 ^ 32, t)

abbrev pub int32_max : ℤ
int32_max = pos 0x7fff_ffff

-- `none`: the assertion fails, or the size of the range is no int32_t and `%` has no defined
-- operand. The remainder of a number that is not negative is that of ℕ.
pub srand_get_limit_int32 : (lo hi : ℤ) → State → Option (ℤ × State)
srand_get_limit_int32 lo hi s =
    let size = hi -ℤ lo +ℤ pos 1 in
    let (r, t) = srand_get_int32 s in
    if ltb_ℤ lo hi
    then if ltb_ℤ int32_max size then none else some (pos (r % pos_part size) +ℤ lo, t)
    else none

-- The four bytes of a 32-bit number in the memory of the machine, lowest first.
abbrev pub int32_bytes : ℕ → List ℕ
int32_bytes n = n % 256 ∷ n / 2 ^ 8 % 256 ∷ n / 2 ^ 16 % 256 ∷ n / 2 ^ 24 % 256 ∷ []

-- "qewe$%^&*()16gvp"
abbrev pub uuid_text : List ℕ
uuid_text =
    b'q' ∷ b'e' ∷ b'w' ∷ b'e' ∷ b'$' ∷ b'%' ∷ b'^' ∷ b'&' ∷ b'*' ∷ b'(' ∷ b')' ∷ b'1' ∷ b'6' ∷ b'g'
    ∷ b'v' ∷ b'p' ∷ []

-- `cbc key iv block` is DbsAesCbcEncrypt, whose work is done by OpenSSL. `stack` is what the twelve
-- bytes of `key` that are never written happen to hold.
abbrev pub srand_get_uuid :
    (cbc : List ℕ → List ℕ → List ℕ → List ℕ) (stack : List ℕ) → State → List ℕ × State
srand_get_uuid cbc stack s =
    let (r, t) = srand_get_int32 s in
    let key = int32_bytes r ++ take 12 stack in (cbc key key uuid_text, t)
