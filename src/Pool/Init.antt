-- ===== src/Pool/Init.antt =====
-- What MALLOC_INIT sets up.
use c_framework_to_server.Base.{
  ℕ, zero, suc, ◌+◌, ◌*◌, ◌^◌, ◌≤◌, ◌<◌, ◌≡◌, refl, ap, sym, subst, ◌∙◌, List, [], ◌∷◌, length, All,
  arith,
}
use c_framework_to_server.Pool.{area, block_addresses, init_column, malloc_init}
use c_framework_to_server.Pool.Serve.{ColumnValid}

length-block_addresses : (start len j n : ℕ) → length (block_addresses start len j n) ≡ n
length-block_addresses start len j zero = refl
length-block_addresses start len j (suc n) = ap suc (length-block_addresses start len (suc j) n)

-- The offset of block j, of n + 1 blocks from there on.
pub block_before :
    (len j n : ℕ)
    → (j * len + suc n * len ≡ suc j * len + n * len) × (j * len + len ≤ j * len + suc n * len)
block_before len j n = omega arith

block_addresses-InArea :
    (start len j n total : ℕ)
    → 0 < len
    → j * len + n * len ≡ total
    → total < 2 ^ 32
    → All (λ b. (start ≤ b) × (b < start + total)) (block_addresses start len j n)
block_addresses-InArea start len j zero total pos sum small = tt
block_addresses-InArea start len j (suc n) total pos sum small = (
  omega (arith, block_before len j n),
  block_addresses-InArea start len (suc j) n total pos (sym (block_before len j n).0 ∙ sum) small,
)

-- What a column is made of: blocks of a length that is not 0, in an area whose size an unsigned int
-- holds.
abbrev pub SpecFits : ℕ × ℕ × ℕ → Type 0
SpecFits (start, len, count) = (0 < len) × (count * len < 2 ^ 32)

area_init :
    (start len count : ℕ) → count * len < 2 ^ 32 → area (init_column start len count) ≡ count * len
area_init start len count h = omega arith

init_column-ColumnValid :
    (start len count : ℕ)
    → 0 < len
    → count * len < 2 ^ 32
    → ColumnValid (init_column start len count)
init_column-ColumnValid start len count pos small = record {
  remain = omega (arith, length-block_addresses start len 0 count);
  addresses =
      subst (λ n. All (λ b. (start ≤ b) × (b < start + n)) (block_addresses start len 0 count))
        (sym (area_init start len count small))
        (block_addresses-InArea start len 0 count (count * len) pos (omega arith) small);
}

-- For lengths that are not 0 and areas whose size an unsigned int holds, MALLOC_INIT sets up columns
-- whose stacks are valid: every address on a stack lies in the column's area, and the stack has room
-- for all the blocks that are left.
pub malloc_init-ColumnValid :
    (specs : List (ℕ × ℕ × ℕ)) → All SpecFits specs → All ColumnValid (malloc_init specs)
malloc_init-ColumnValid [] fits = tt
malloc_init-ColumnValid ((start, len, count) ∷ specs) fits = (
  init_column-ColumnValid start len count fits.0.0 fits.0.1,
  malloc_init-ColumnValid specs fits.1,
)
