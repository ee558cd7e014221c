-- ===== src/Pool/Lending.antt =====
-- Who holds the blocks of the pool: MALLOC and FREE in any order.
use c_framework_to_server.Base.{
  ℕ, zero, suc, ◌+◌, ◌*◌, ◌%◌, ◌^◌, ◌≤◌, ◌<◌, ◌≡◌, refl, ap, subst, ◌⊎◌, inl, inr, Bool, some, List,
  [], ◌∷◌, ◌++◌, take, All, arith, ◌==◌, Bool-cases,
}
use c_framework_to_server.Pool.{
  Column, block_addresses, malloc_init, pooled, malloc_block, free_block,
}
use c_framework_to_server.Pool.Serve.{InArea, ColumnValid}
use c_framework_to_server.Pool.Init.{SpecFits, block_before, malloc_init-ColumnValid}
use c_framework_to_server.Pool.Return.{Apart, Separate}
use c_framework_to_server.Pool.Counting.{
  occurrences, occurrences-append, free_blocks, free_count, free_loop-count, free_block-free_loop,
  malloc_block-count,
}

-- The pool and the blocks of it that the program holds.
pub record Lending : Type 0 where
  pub columns : List Column
  pub held : List ℕ

-- A MALLOC that the pool serves, and a FREE of a block that is held.
pub data Step (s : Lending) : Lending → Type 0 where
  take_block :
      (size b : ℕ) (cs : List Column)
      → malloc_block size s.columns ≡ some (pooled b, cs)
      → Step s (record { columns = cs; held = b ∷ s.held })
  give_block :
      (b : ℕ) (front back : List ℕ) (found : Bool) (cs : List Column)
      → s.held ≡ front ++ b ∷ back
      → free_block b s.columns ≡ some (found, cs)
      → Step s (record { columns = cs; held = front ++ back })

pub data Reach (s : Lending) : Lending → Type 0 where
  here : Reach s s
  later : {t u : Lending} → Reach s t → Step t u → Reach s u

-- Free and held blocks are all different.
abbrev pub IsOnce : Lending → Type 0
IsOnce s = (a : ℕ) → free_count a s.columns + occurrences a s.held ≤ 1

Step-IsOnce : {s t : Lending} → Step s t → IsOnce s → IsOnce t
Step-IsOnce {s} (take_block size b cs run) h a =
    omega (arith, h a, malloc_block-count a size b s.columns cs run)
Step-IsOnce {s} (give_block b front back found cs split run) h a = omega (
  arith,
  h a,
  free_loop-count a b found s.columns cs (free_block-free_loop b found s.columns cs run),
  ap (occurrences a) split,
  occurrences-append a front (b ∷ back),
  occurrences-append a front back,
)

Reach-IsOnce : {s t : Lending} → Reach s t → IsOnce s → IsOnce t
Reach-IsOnce here h = h
Reach-IsOnce (later r st) h = Step-IsOnce st (Reach-IsOnce r h)

occurrences-take : (a n : ℕ) (xs : List ℕ) → occurrences a (take n xs) ≤ occurrences a xs
occurrences-take a zero xs = omega arith
occurrences-take a (suc n) [] = omega arith
occurrences-take a (suc n) (x ∷ xs) = omega (arith, occurrences-take a n xs)

in_area :
    (a : ℕ) (c : Column) (xs : List ℕ) → All (InArea c) xs → (occurrences a xs ≡ 0) ⊎ InArea c a
in_area a c [] h = inl refl
in_area a c (x ∷ xs) h = elim (Bool-cases (x == a)) [
  | inl e ↦ let it : x ≡ a = ground arith in inr (subst (InArea c) it h.0)
  | inr e ↦ elim (in_area a c xs h.1) [
    | inl none_there ↦ inl (ground arith)
    | inr there ↦ inr there
  ]
]

free-InArea :
    (a : ℕ) (c : Column) → ColumnValid c → (occurrences a (free_blocks c) ≡ 0) ⊎ InArea c a
free-InArea a c valid = elim (in_area a c c.header valid.addresses) [
  | inl none_there ↦ inl (omega (arith, occurrences-take a c.remain_count c.header))
  | inr there ↦ inr there
]

not_in_both : (a : ℕ) (c d : Column) → Apart c d → InArea c a → ¬ InArea d a
not_in_both a c d apart h k = ground arith

not_in_others :
    (a : ℕ) (c : Column) (cs : List Column)
    → All (Apart c) cs
    → All ColumnValid cs
    → InArea c a
    → free_count a cs ≡ 0
not_in_others a c [] apart valid h = refl
not_in_others a c (d ∷ cs) apart valid h = elim (free-InArea a d valid.0) [
  | inl none_there ↦ omega (arith, not_in_others a c cs apart.1 valid.1 h)
  | inr there ↦ absurd (not_in_both a c d apart.0 h there)
]

free_once :
    (a : ℕ) (cs : List Column)
    → All ColumnValid cs
    → Separate cs
    → All (λ c. occurrences a (free_blocks c) ≤ 1) cs
    → free_count a cs ≤ 1
free_once a [] valid apart once = omega arith
free_once a (c ∷ cs) valid apart once = elim (free-InArea a c valid.0) [
  | inl none_there ↦ omega (arith, free_once a cs valid.1 apart.1 once.1)
  | inr there ↦ omega (arith, once.0, not_in_others a c cs apart.0 valid.1 there)
]

next_start : (len j : ℕ) → suc j * len ≡ j * len + len
next_start len j = omega arith

below_blocks :
    (a start len j n : ℕ)
    → j * len + n * len < 2 ^ 32
    → a < start + j * len
    → occurrences a (block_addresses start len j n) ≡ 0
below_blocks a start len j zero small h = refl
below_blocks a start len j (suc n) small h =
    let whole : j * len % 2 ^ 32 ≡ j * len = omega arith in
    let rest =
      below_blocks a start len (suc j) n (omega (arith, block_before len j n))
        (omega (arith, next_start len j)) in
    ground arith

blocks_once :
    (a start len j n : ℕ)
    → 0 < len
    → j * len + n * len < 2 ^ 32
    → occurrences a (block_addresses start len j n) ≤ 1
blocks_once a start len j zero pos small = omega arith
blocks_once a start len j (suc n) pos small =
    let whole : j * len % 2 ^ 32 ≡ j * len = omega arith in
    let small' : suc j * len + n * len < 2 ^ 32 = omega (arith, block_before len j n) in
    elim (Bool-cases (start + j * len % 2 ^ 32 == a)) [
      | inl e ↦
          let it : start + j * len ≡ a = ground arith in
          let rest = below_blocks a start len (suc j) n small' (omega (arith, next_start len j)) in
          ground arith
      | inr e ↦ ground (arith, blocks_once a start len (suc j) n pos small')
    ]

malloc_init_once :
    (a : ℕ) (specs : List (ℕ × ℕ × ℕ))
    → All SpecFits specs
    → All (λ c. occurrences a (free_blocks c) ≤ 1) (malloc_init specs)
malloc_init_once a [] fits = tt
malloc_init_once a ((start, len, count) ∷ specs) fits = (
  omega (
    arith,
    occurrences-take a count (block_addresses start len 0 count),
    blocks_once a start len 0 count fits.0.0 (omega (arith, fits.0.1)),
  ),
  malloc_init_once a specs fits.1,
)

-- From MALLOC_INIT on, whatever calls of MALLOC and FREE the program makes whose behaviour is
-- defined, that is, without a FREE of a column's first block, no block of the pool is free twice,
-- held twice, or held while it is free: every address occurs at most once among the free and the held
-- blocks. The lengths of the blocks are not 0, the areas' sizes fit an unsigned int and the areas do
-- not overlap, and the program frees only blocks that it holds.
pub malloc_init-Reach-IsOnce :
    (specs : List (ℕ × ℕ × ℕ)) (t : Lending)
    → All SpecFits specs
    → Separate (malloc_init specs)
    → Reach (record { columns = malloc_init specs; held = [] }) t
    → IsOnce t
malloc_init-Reach-IsOnce specs t fits apart r = Reach-IsOnce r λ a. omega (
  arith,
  free_once a (malloc_init specs) (malloc_init-ColumnValid specs fits) apart
      (malloc_init_once a specs fits),
)
