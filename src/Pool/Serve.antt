-- ===== src/Pool/Serve.antt =====
-- Which block MALLOC gives.
use c_framework_to_server.Base.{
  ℕ, zero, suc, ◌+◌, ◌-◌, ◌≤◌, ◌<◌, ◌≡◌, refl, ◌⊎◌, inl, inr, true, false, ◌||◌, Option, some, List,
  [], ◌∷◌, ◌++◌, length, get_elem?, All, arith, Bool-cases, ltb, ◌==◌,
}
use c_framework_to_server.Pool.{
  Column, area, Buffer, pooled, system, malloc_loop, malloc_block, last_column,
}

-- An address in the area of a column.
abbrev pub InArea : Column → ℕ → Type 0
InArea c b = (c.addr_start ≤ b) × (b < c.addr_start + area c)

-- The stack has room for every block, and holds addresses of the column's area.
pub record ColumnValid (c : Column) : Type 0 where
  pub remain : c.remain_count ≤ length c.header
  pub addresses : All (InArea c) c.header

-- Too small for the size, or used up.
abbrev pub Skipped : (size : ℕ) → Column → Type 0
Skipped size c = (c.block_len < size) ⊎ (c.remain_count ≡ 0)

-- What MALLOC may do: the first column with blocks that are long enough and not used up gives the
-- block on top of its stack; malloc gives one if there is no such column.
pub data Served (size : ℕ) : List Column → Buffer → List Column → Type 0 where
  from_pool :
      (before after : List Column) (c : Column) (b : ℕ)
      → All (Skipped size) before
      → size ≤ c.block_len
      → 0 < c.remain_count
      → get_elem? c.header (c.remain_count - 1) ≡ some b
      → InArea c b
      → Served size
          (before ++ c ∷ after)
          (pooled b)
          (before ++ record c { remain_count = c.remain_count - 1 } ∷ after)
  from_system : (cs : List Column) → All (Skipped size) cs → Served size cs system cs

get_elem?-All :
    (P : ℕ → Type 0) (xs : List ℕ) (i : ℕ)
    → All P xs
    → i < length xs
    → (x : ℕ) × ((get_elem? xs i ≡ some x) × P x)
get_elem?-All P [] i all h = absurd (omega arith)
get_elem?-All P (x ∷ xs) zero all h = (x, (refl, all.0))
get_elem?-All P (x ∷ xs) (suc i) all h = get_elem?-All P xs i all.1 (omega arith)

abbrev pub MallocOutcome : (size : ℕ) → List Column → Option (Buffer × List Column) → Type 0
MallocOutcome size cs run =
    (buffer : Buffer) × ((cs' : List Column) × ((run ≡ some (buffer, cs'))
        × Served size cs buffer cs'))

skip_column :
    {size : ℕ} {cs cs' : List Column} {buffer : Buffer} (c : Column)
    → Skipped size c
    → Served size cs buffer cs'
    → Served size (c ∷ cs) buffer (c ∷ cs')
skip_column c s (from_pool before after d b skipped len remain top area') =
    from_pool (c ∷ before) after d b (s, skipped) len remain top area'
skip_column c s (from_system cs skipped) = from_system (c ∷ cs) (s, skipped)

Skipped-cases :
    (size : ℕ) (c : Column)
    → (((ltb c.block_len size || (c.remain_count == 0)) ≡ true) × Skipped size c)
      ⊎ (((ltb c.block_len size || (c.remain_count == 0)) ≡ false)
          × ((size ≤ c.block_len) × (0 < c.remain_count)))
Skipped-cases size c = elim (Bool-cases (ltb c.block_len size)) [
  | inl e ↦ inl (rw (e), inl (ground arith))
  | inr e ↦ elim (Bool-cases (c.remain_count == 0)) [
    | inl e' ↦ inl (rw (e, e'), inr (ground arith))
    | inr e' ↦ inr (rw (e, e'), (ground arith, ground arith))
  ]
]

malloc_loop-Served :
    (size : ℕ) (cs : List Column) → All ColumnValid cs → MallocOutcome size cs (malloc_loop size cs)
unfolding malloc_loop
malloc_loop-Served size [] valid = (system, ([], (refl, from_system [] tt)))
malloc_loop-Served size (c ∷ cs) valid = elim (Skipped-cases size c) [
  | inl (e, s) ↦
      let (buffer, (cs', (run, served))) = malloc_loop-Served size cs valid.1 in
      (buffer, (c ∷ cs', (rw (e, run), skip_column c s served)))
  | inr (e, (len, remain)) ↦
      let (b, (top, here)) =
        get_elem?-All (InArea c) c.header (c.remain_count - 1) valid.0.addresses
          (omega (arith, valid.0.remain)) in
      (
        pooled b,
        (
          record c { remain_count = c.remain_count - 1 } ∷ cs,
          (rw (e, top), from_pool [] cs c b tt len remain top here),
        ),
      )
]

-- The last column has the longest blocks.
abbrev pub LastLargest : List Column → Type 0
LastLargest cs =
    (d : Column) × ((last_column cs ≡ some d) × All (λ c. c.block_len ≤ d.block_len) cs)

All-Skipped :
    (size : ℕ) (d : Column) (cs : List Column)
    → d.block_len < size
    → All (λ c. c.block_len ≤ d.block_len) cs
    → All (Skipped size) cs
All-Skipped size d [] h all = tt
All-Skipped size d (c ∷ cs) h all = (inl (omega (arith, all.0)), All-Skipped size d cs h all.1)

-- With columns whose stacks are valid, the last of them with the longest blocks, MALLOC always ends
-- without a fault. It gives the block on top of the first column whose blocks are long enough and not
-- used up, an address in that column's area, and takes it off the stack; only where there is no such
-- column is malloc asked, and the pool left as it was.
pub malloc_block-Served :
    (size : ℕ) (cs : List Column)
    → All ColumnValid cs
    → LastLargest cs
    → (buffer : Buffer) × ((cs' : List Column) × ((malloc_block size cs ≡ some (buffer, cs'))
          × Served size cs buffer cs'))
unfolding malloc_block
malloc_block-Served size cs valid (d, (last, all)) = elim (Bool-cases (ltb d.block_len size)) [
  | inl e ↦
      (system, (cs, (rw (last, e), from_system cs (All-Skipped size d cs (ground arith) all))))
  | inr e ↦
      let (buffer, (cs', (run, served))) = malloc_loop-Served size cs valid in
      (buffer, (cs', (rw (last, e) run, served)))
]
