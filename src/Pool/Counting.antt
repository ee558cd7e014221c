-- ===== src/Pool/Counting.antt =====
-- How often an address occurs among the free blocks, before and behind MALLOC and FREE.
use c_framework_to_server.Base.{
  ℕ, zero, suc, ◌+◌, ◌-◌, ◌≤◌, ◌<◌, ◌≡◌, ap, ◌∙◌, inl, inr, Bool, false, not, ◌&&◌, ◌||◌, some,
  List, [], ◌∷◌, ◌++◌, length, get_elem?, set, take, arith, ◌==◌, ltb, if◌then◌else◌, Bool-cases,
  Option-cases,
}
use c_framework_to_server.Pool.{
  Column, pop, push, inside, pooled, last_column, malloc_loop, malloc_block, free_loop, free_block,
  owned,
}

abbrev pub one_if : (b a : ℕ) → ℕ
one_if b a = if b == a then 1 else 0

abbrev pub occurrences : ℕ → List ℕ → ℕ
occurrences a [] = 0
occurrences a (b ∷ bs) = one_if b a + occurrences a bs

pub occurrences-append :
    (a : ℕ) (bs cs : List ℕ) → occurrences a (bs ++ cs) ≡ occurrences a bs + occurrences a cs
occurrences-append a [] cs = omega arith
occurrences-append a (b ∷ bs) cs = omega (arith, occurrences-append a bs cs)

-- The free blocks of a column, and of the pool.
abbrev pub free_blocks : Column → List ℕ
free_blocks c = take c.remain_count c.header

abbrev pub free_count : ℕ → List Column → ℕ
free_count a [] = 0
free_count a (c ∷ cs) = occurrences a (free_blocks c) + free_count a cs

take-next :
    (a n b : ℕ) (xs : List ℕ)
    → get_elem? xs n ≡ some b
    → occurrences a (take (suc n) xs) ≡ occurrences a (take n xs) + one_if b a
take-next a n b [] h = absurd (ground arith)
take-next a zero b (x ∷ xs) h = ground arith
take-next a (suc n) b (x ∷ xs) h = ground (arith, take-next a n b xs h)

take-set :
    (a n b : ℕ) (xs : List ℕ)
    → n < length xs
    → occurrences a (take (suc n) (set xs n b)) ≡ occurrences a (take n xs) + one_if b a
take-set a n b [] h = absurd (omega arith)
take-set a zero b (x ∷ xs) h = ground arith
take-set a (suc n) b (x ∷ xs) h = ground (arith, take-set a n b xs (omega arith))

pop-count :
    (a b : ℕ) (c c' : Column)
    → (c.remain_count == 0) ≡ false
    → pop c ≡ some (b, c')
    → occurrences a (free_blocks c) ≡ occurrences a (free_blocks c') + one_if b a
pop-count a b c c' some_left h =
    let n = c.remain_count - 1 in
    elim (Option-cases (get_elem? c.header n)) [
      | inl e ↦ absurd (ground arith)
      | inr (x, e) ↦
          let same : c' ≡ record c { remain_count = n } = ground arith in
          let it : x ≡ b = ground arith in
          let top : get_elem? c.header n ≡ some b = e ∙ ap some it in
          let back : c.remain_count ≡ suc n = ground arith in
          rw same (ap (λ k. occurrences a (take k c.header)) back ∙ take-next a n b c.header top)
    ]

push-count :
    (a b : ℕ) (c c' : Column)
    → push b c ≡ some c'
    → occurrences a (free_blocks c') ≡ occurrences a (free_blocks c) + one_if b a
push-count a b c c' h = elim (Bool-cases (ltb c.remain_count (length c.header))) [
  | inl room ↦
      let n = c.remain_count in
      let same : c' ≡ record c { header = set c.header n b; remain_count = n + 1 } = ground arith in
      let next : n + 1 ≡ suc n = omega arith in
      rw same (
        ap (λ k. occurrences a (take k (set c.header n b))) next
        ∙ take-set a n b c.header (ground arith))
  | inr full ↦ absurd (ground arith)
]

malloc_loop-count :
    (a size b : ℕ) (cs cs' : List Column)
    → malloc_loop size cs ≡ some (pooled b, cs')
    → free_count a cs ≡ free_count a cs' + one_if b a
unfolding malloc_loop
malloc_loop-count a size b [] cs' h = absurd (ground arith)
malloc_loop-count a size b (c ∷ cs) cs' h =
    elim (Bool-cases (ltb c.block_len size || (c.remain_count == 0))) [
      | inl skip ↦ elim (Option-cases (malloc_loop size cs)) [
        | inl e ↦ absurd (ground arith)
        | inr ((buffer, cs1), e) ↦
            let it : buffer ≡ pooled b = ground arith in
            let same : cs' ≡ c ∷ cs1 = ground arith in
            let run : malloc_loop size cs ≡ some (pooled b, cs1) = ground arith in
            rw same (omega (arith, malloc_loop-count a size b cs cs1 run))
      ]
      | inr take_it ↦ elim (Option-cases (pop c)) [
        | inl e ↦ absurd (ground arith)
        | inr ((x, c1), e) ↦
            let it : x ≡ b = ground arith in
            let same : cs' ≡ c1 ∷ cs = ground arith in
            let run : pop c ≡ some (b, c1) = e ∙ ap (λ y. some (y, c1)) it in
            let some_left : (c.remain_count == 0) ≡ false = ground arith in
            rw same (omega (arith, pop-count a b c c1 some_left run))
      ]
    ]

pub free_loop-count :
    (a b : ℕ) (found : Bool) (cs cs' : List Column)
    → free_loop b cs ≡ some (found, cs')
    → free_count a cs' ≤ free_count a cs + one_if b a
unfolding free_loop
free_loop-count a b found [] cs' h = ground arith
free_loop-count a b found (c ∷ cs) cs' h = elim (Bool-cases (inside c b)) [
  | inl here ↦ elim (Option-cases (push b c)) [
    | inl e ↦ absurd (ground arith)
    | inr (c1, e) ↦
        let same : cs' ≡ c1 ∷ cs = ground arith in rw same (omega (arith, push-count a b c c1 e))
  ]
  | inr other ↦ elim (Option-cases (free_loop b cs)) [
    | inl e ↦ absurd (ground arith)
    | inr ((found1, cs1), e) ↦
        let same : cs' ≡ c ∷ cs1 = ground arith in
        rw same (omega (arith, free_loop-count a b found1 cs cs1 e))
  ]
]

pub malloc_block-count :
    (a size b : ℕ) (cs cs' : List Column)
    → malloc_block size cs ≡ some (pooled b, cs')
    → free_count a cs ≡ free_count a cs' + one_if b a
unfolding malloc_block
malloc_block-count a size b cs cs' h = elim (Option-cases (last_column cs)) [
  | inl e ↦ absurd (ground arith)
  | inr (c, e) ↦ elim (Bool-cases (ltb c.block_len size)) [
    | inl big ↦ absurd (ground arith)
    | inr fits ↦
        let run : malloc_loop size cs ≡ some (pooled b, cs') = ground arith in
        malloc_loop-count a size b cs cs' run
  ]
]

-- What FREE leaves, its loop has left.
pub free_block-free_loop :
    (b : ℕ) (found : Bool) (cs cs' : List Column)
    → free_block b cs ≡ some (found, cs')
    → free_loop b cs ≡ some (found, cs')
unfolding free_block
free_block-free_loop b found cs cs' run = elim (Option-cases (free_loop b cs)) [
  | inl e ↦ absurd (ground arith)
  | inr ((found', left), e) ↦ elim (Bool-cases (not found' && owned b cs)) [
    | inl bad ↦ absurd (ground arith)
    | inr good ↦ ground arith
  ]
]
