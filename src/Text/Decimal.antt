-- ===== src/Text/Decimal.antt =====
-- What printf("%d") writes is what atoi reads, and at most eleven characters long.
use c_framework_to_server.Base.{
  ℕ, zero, suc, ◌+◌, ◌*◌, ◌/◌, ◌%◌, ◌≤◌, ◌<◌, ◌≡◌, refl, sym, ap, ◌∙◌, List, [], ◌∷◌, length, arith,
  inl, inr, ltb, Bool-cases, lt→ltb, ◌^◌, All,
}
use c_framework_to_server.Base.Int.{ℤ, pos, negsuc}
use c_framework_to_server.Text.{
  digits, decimal, atoi_digits, atoi_sign, atoi_value, clamp_int, atoi,
}

length-digits : (f n : ℕ) (behind : List ℕ) → length (digits f n behind) ≤ f + length behind
unfolding digits
length-digits zero n behind = omega arith
length-digits (suc f) n behind = elim (Bool-cases (ltb n 10)) [
  | inl e ↦ rw (e, digits) (omega arith)
  | inr e ↦ rw (e, digits) (omega (arith, length-digits f (n / 10) ((48 + n % 10) ∷ behind)))
]

pub length-decimal : (z : ℤ) → length (decimal z) ≤ 11
unfolding decimal
length-decimal (pos n) = omega (arith, length-digits 10 n [])
length-decimal (negsuc n) = omega (arith, length-digits 10 (suc n) [])

-- A character of a number without a sign.
abbrev pub IsDigit : ℕ → Type 0
IsDigit c = (48 ≤ c) × (c ≤ 57)

pub digits-IsDigit :
    (f n : ℕ) (behind : List ℕ) → All IsDigit behind → All IsDigit (digits f n behind)
unfolding digits
digits-IsDigit zero n behind h = h
digits-IsDigit (suc f) n behind h = elim (Bool-cases (ltb n 10)) [
  | inl e ↦ rw (e, digits) ((omega arith, ground arith), h)
  | inr e ↦
      rw (e, digits)
        (digits-IsDigit f (n / 10) ((48 + n % 10) ∷ behind) ((omega arith, omega arith), h))
]

abbrev pub pow_ten : ℕ → ℕ
pow_ten zero = 1
pow_ten (suc f) = 10 * pow_ten f

digit_step :
    (acc d : ℕ) (s : List ℕ)
    → d < 10
    → atoi_digits acc ((48 + d) ∷ s) ≡ atoi_digits (acc * 10 + d) s
unfolding atoi_digits
digit_step acc d s h = ground arith

atoi_digits-digits :
    (f n : ℕ) (behind : List ℕ)
    → n < pow_ten f
    → atoi_digits 0 (digits f n behind) ≡ atoi_digits n behind
unfolding digits
atoi_digits-digits zero n behind h = ap (λ k. atoi_digits k behind) (omega arith)
atoi_digits-digits (suc f) n behind h = elim (Bool-cases (ltb n 10)) [
  | inl e ↦
      rw (e, digits)
        (digit_step 0 n behind (ground arith) ∙ ap (λ k. atoi_digits k behind) (omega arith))
  | inr e ↦
      rw (e, digits)
        (atoi_digits-digits f (n / 10) ((48 + n % 10) ∷ behind) (omega arith)
          ∙ digit_step (n / 10) (n % 10) behind (omega arith)
          ∙ ap (λ k. atoi_digits k behind) (omega arith))
]

digits-first :
    (f n c : ℕ) (s : List ℕ)
    → IsDigit c
    → (c' : ℕ) × (s' : List ℕ) × (digits f n (c ∷ s) ≡ c' ∷ s') × IsDigit c'
unfolding digits
digits-first zero n c s h = (c, s, refl, h)
digits-first (suc f) n c s h = elim (Bool-cases (ltb n 10)) [
  | inl e ↦ (48 + n, c ∷ s, rw (e, digits) refl, (omega arith, ground arith))
  | inr e ↦
      let (c', s', there, h') =
        digits-first f (n / 10) (48 + n % 10) (c ∷ s) (omega arith, omega arith) in
      (c', s', rw (e, digits) there, h')
]

-- The first digit of a number.
pub decimal-first : (n : ℕ) → (c : ℕ) × (s : List ℕ) × (decimal (pos n) ≡ c ∷ s) × IsDigit c
unfolding decimal digits
decimal-first n = elim (Bool-cases (ltb n 10)) [
  | inl e ↦ (48 + n, [], rw (e, digits) refl, (omega arith, ground arith))
  | inr e ↦
      let (c, s, there, h) = digits-first 9 (n / 10) (48 + n % 10) [] (omega arith, omega arith) in
      (c, s, rw (e, digits) there, h)
]

pub decimal-IsDigit : (n : ℕ) → All IsDigit (decimal (pos n))
unfolding decimal
decimal-IsDigit n = digits-IsDigit 10 n [] tt

atoi-digit : (c : ℕ) (s : List ℕ) → IsDigit c → atoi_value (c ∷ s) ≡ pos (atoi_digits 0 (c ∷ s))
unfolding atoi_value atoi_sign
atoi-digit c s h = ground arith

-- What printf("%d") writes is what atoi reads.
pub atoi-decimal : (n : ℕ) → n < 2 ^ 31 → atoi (decimal (pos n)) ≡ pos n
unfolding atoi decimal atoi_digits
atoi-decimal n h =
    let (c, s, e, digit) = decimal-first n in
    let value : atoi_value (decimal (pos n)) ≡ pos n =
      ap atoi_value e
      ∙ atoi-digit c s digit
      ∙ ap (λ t. pos (atoi_digits 0 t)) (sym e)
      ∙ ap pos (atoi_digits-digits 10 n [] (omega arith)) in
    ap clamp_int value ∙ rw (lt→ltb n (2 ^ 31) h) refl
