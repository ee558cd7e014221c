-- ===== src/Random/Step.antt =====
-- `srand_next` against the linear congruential generator on 48-bit numbers.
use c_framework_to_server.Base.{ℕ, ◌+◌, ◌*◌, ◌%◌, ◌^◌, ◌<◌, ◌≡◌, arith, ◌∙◌, ap₂}
use native.Mathlib.Nat.{mod-eq_of_lt}
use c_framework_to_server.Random.{State, low, high, carry, add_equ, srand_next}

-- The digits, the factors and the addend are 16-bit numbers.
pub record IsValid (s : State) : Type 0 where
  pub x0_lt : s.x0 < 2 ^ 16
  pub x1_lt : s.x1 < 2 ^ 16
  pub x2_lt : s.x2 < 2 ^ 16
  pub a0_lt : s.a0 < 2 ^ 16
  pub a1_lt : s.a1 < 2 ^ 16
  pub a2_lt : s.a2 < 2 ^ 16
  pub c_lt : s.c < 2 ^ 16

-- The 48-bit number that the three digits stand for, and the constant factor.
abbrev pub seed : State → ℕ
seed s = s.x0 + s.x1 * 2 ^ 16 + s.x2 * 2 ^ 32

abbrev pub factor : State → ℕ
factor s = s.a0 + s.a1 * 2 ^ 16 + s.a2 * 2 ^ 32

-- One column of the sum: the digit that stays and the carry make up the sum.
carry-add_equ : (x y : ℕ) → x < 2 ^ 16 → y < 2 ^ 16 → add_equ x y + carry x y * 2 ^ 16 ≡ x + y
carry-add_equ x y hx hy = ground arith

add_equ-lt : (x y : ℕ) → add_equ x y < 2 ^ 16
add_equ-lt x y = omega arith

carry-lt : (x y : ℕ) → carry x y < 2 ^ 16
carry-lt x y = ground arith

mul-lt : (x y : ℕ) → x < 2 ^ 16 → y < 2 ^ 16 → x * y < 2 ^ 32
mul-lt x y hx hy = grind arith

low-high : (p : ℕ) → p < 2 ^ 32 → low p + high p * 2 ^ 16 ≡ p
low-high p h = omega arith

-- The columns of the long multiplication, over any partial products.
columns :
    (p0 p1 q0 q1 r0 r1 t u w c d0 k0 d1 k1 e1 k2 f1 k3 : ℕ)
    → d0 < 2 ^ 16
    → f1 < 2 ^ 16
    → d0 + k0 * 2 ^ 16 ≡ p0 + c
    → d1 + k1 * 2 ^ 16 ≡ p1 + k0
    → e1 + k2 * 2 ^ 16 ≡ d1 + q0
    → f1 + k3 * 2 ^ 16 ≡ e1 + r0
    → d0 % 2 ^ 16 + f1 * 2 ^ 16 + (k2 + k1 + k3 + q1 + r1 + t + u + w) % 2 ^ 32 % 2 ^ 16 * 2 ^ 32
      ≡ (p0
          + p1 * 2 ^ 16
          + (q0 + q1 * 2 ^ 16 + (r0 + r1 * 2 ^ 16)) * 2 ^ 16
          + (t + u + w) * 2 ^ 32
          + c)
        % 2 ^ 48
columns p0 p1 q0 q1 r0 r1 t u w c d0 k0 d1 k1 e1 k2 f1 k3 hd hf e e' e'' e''' = omega arith

-- The same with the partial products of MUL.
columns-mul :
    (p q r t u w c : ℕ)
    → p < 2 ^ 32
    → q < 2 ^ 32
    → r < 2 ^ 32
    → c < 2 ^ 16
    → let d0 = add_equ (low p) c in
      let k0 = carry (low p) c in
      let d1 = add_equ (high p) k0 in
      let e1 = add_equ d1 (low q) in
      d0 % 2 ^ 16
        + add_equ e1 (low r) * 2 ^ 16
        + (carry d1 (low q) + carry (high p) k0 + carry e1 (low r) + high q + high r + t + u + w)
          % 2 ^ 32
          % 2 ^ 16
          * 2 ^ 32
      ≡ (p + (q + r) * 2 ^ 16 + (t + u + w) * 2 ^ 32 + c) % 2 ^ 48
columns-mul p q r t u w c hp hq hr hc =
    let k0 = carry (low p) c in
    let d1 = add_equ (high p) k0 in
    let e1 = add_equ d1 (low q) in
    columns (low p) (high p) (low q) (high q) (low r) (high r) t u w c (add_equ (low p) c) k0 d1
      (carry (high p) k0) e1 (carry d1 (low q)) (add_equ e1 (low r)) (carry e1 (low r))
      (add_equ-lt (low p) c) (add_equ-lt e1 (low r)) (carry-add_equ (low p) c (omega arith) hc)
      (carry-add_equ (high p) k0 (omega arith) (carry-lt (low p) c))
      (carry-add_equ d1 (low q) (add_equ-lt (high p) k0) (omega arith))
      (carry-add_equ e1 (low r) (add_equ-lt d1 (low q)) (omega arith))
    ∙ ap₂ (λ m n. (m + n * 2 ^ 16 + (t + u + w) * 2 ^ 32 + c) % 2 ^ 48) (low-high p hp)
        (ap₂ ◌+◌ (low-high q hq) (low-high r hr))

-- What is left of the full product modulo 2 ^ 48.
low_product :
    (a0 a1 a2 x0 x1 x2 c : ℕ)
    → (a0 * x0 + (a0 * x1 + a1 * x0) * 2 ^ 16 + (a0 * x2 + a1 * x1 + a2 * x0) * 2 ^ 32 + c) % 2 ^ 48
      ≡ ((a0 + a1 * 2 ^ 16 + a2 * 2 ^ 32) * (x0 + x1 * 2 ^ 16 + x2 * 2 ^ 32) + c) % 2 ^ 48
low_product a0 a1 a2 x0 x1 x2 c = omega arith

-- `srand_next` is one step of the linear congruential generator modulo 2 ^ 48: on digits below
-- 2 ^ 16 the new seed is the factor times the old one plus the addend, and the 32-bit partial
-- products and carries lose nothing below the 48th bit.
pub srand_next-seed :
    (s : State) → IsValid s → seed (srand_next s) ≡ (factor s * seed s + s.c) % 2 ^ 48
unfolding srand_next
srand_next-seed s v =
    rw
      (
        mod-eq_of_lt (mul-lt s.a0 s.x0 v.a0_lt v.x0_lt),
        mod-eq_of_lt (mul-lt s.a0 s.x1 v.a0_lt v.x1_lt),
        mod-eq_of_lt (mul-lt s.a1 s.x0 v.a1_lt v.x0_lt),
      )
      (columns-mul (s.a0 * s.x0) (s.a0 * s.x1) (s.a1 * s.x0) (s.a0 * s.x2) (s.a1 * s.x1)
          (s.a2 * s.x0) s.c (mul-lt s.a0 s.x0 v.a0_lt v.x0_lt) (mul-lt s.a0 s.x1 v.a0_lt v.x1_lt)
          (mul-lt s.a1 s.x0 v.a1_lt v.x0_lt) v.c_lt
        ∙ low_product s.a0 s.a1 s.a2 s.x0 s.x1 s.x2 s.c)

-- The step leaves 16-bit digits, and the factor and the addend as they were.
pub srand_next-IsValid : (s : State) → IsValid s → IsValid (srand_next s)
unfolding srand_next
srand_next-IsValid s v = ground arith
