-- ===== src/Pool.antt =====
-- The memory pool of cFrameworkToServer/utils/memory_pool.c: columns of blocks of one length, each with
-- a stack of the addresses of its free blocks. What the blocks hold is left out, and so is the spin
-- lock: one call at a time. The addresses that malloc returns are arguments. `none` is undefined
-- behaviour: an access outside an array.
pub mod Serve
pub mod Init
pub mod Return
pub mod Counting
pub mod Lending
pub mod Setup
pub mod Tests
use c_framework_to_server.Base.{
  ℕ, zero, suc, ◌+◌, ◌-◌, ◌*◌, ◌%◌, ◌^◌, Bool, true, false, not, ◌&&◌, ◌||◌, Option, none, some,
  List, [], ◌∷◌, length, get_elem?, set, ltb, leb, ◌==◌, if◌then◌else◌,
}
use c_framework_to_server.Memory.{◌>>=◌}

-- memory_pool_colume, without addr_end.
pub record Column : Type 0 where
  pub total_count : ℕ
  pub remain_count : ℕ
  pub block_len : ℕ
  pub addr_start : ℕ
  pub header : List ℕ

-- `block_len * total_count`, an unsigned int.
abbrev pub area : Column → ℕ
area c = c.block_len * c.total_count % 2 ^ 32

-- The addresses of the blocks from the j-th on; the products are unsigned ints.
abbrev pub block_addresses : (addr_start block_len j count : ℕ) → List ℕ
block_addresses start len j zero = []
block_addresses start len j (suc n) =
    (start + j * len % 2 ^ 32) ∷ block_addresses start len (suc j) n

-- One round of the loop of MALLOC_INIT.
abbrev pub init_column : (addr_start block_len block_count : ℕ) → Column
init_column start len count = record {
  total_count = count;
  remain_count = count;
  block_len = len;
  addr_start = start;
  header = block_addresses start len 0 count;
}

-- MALLOC_INIT, for the addresses of the areas and the lengths and counts of the blocks.
abbrev pub malloc_init : List (ℕ × ℕ × ℕ) → List Column
malloc_init [] = []
malloc_init ((start, len, count) ∷ rest) = init_column start len count ∷ malloc_init rest

-- `remain_count--` and the address that was on top.
abbrev pub pop : Column → Option (ℕ × Column)
pop c =
    get_elem? c.header (c.remain_count - 1)
    >>= (λ b. some (b, record c { remain_count = c.remain_count - 1 }))

-- `header[remain_count++] = buffer`.
abbrev pub push : ℕ → Column → Option Column
push b c =
    if ltb c.remain_count (length c.header)
    then some
        (record c { header = set c.header c.remain_count b; remain_count = c.remain_count + 1 })
    else none

-- A block of the pool, or one that malloc has to give.
pub data Buffer : Type 0 where
  pooled : (addr : ℕ) → Buffer
  system : Buffer

-- The loop of MALLOC.
unfoldable pub malloc_loop : (size : ℕ) → List Column → Option (Buffer × List Column)
malloc_loop size [] = some (system, [])
malloc_loop size (c ∷ cs) =
    let rest = malloc_loop size cs in
    if ltb c.block_len size || (c.remain_count == 0)
    then rest >>= (λ (buffer, cs'). some (buffer, c ∷ cs'))
    else pop c >>= (λ (b, c'). some (pooled b, c' ∷ cs))

-- b_p[buffer_pool_no - 1].
abbrev pub last_column : List Column → Option Column
last_column [] = none
last_column (c ∷ []) = some c
last_column (c ∷ d ∷ cs) = last_column (d ∷ cs)

-- MALLOC.
unfoldable pub malloc_block : (size : ℕ) → List Column → Option (Buffer × List Column)
malloc_block size cs =
    last_column cs
    >>= (λ c. if ltb c.block_len size then some (system, cs) else malloc_loop size cs)

-- `buffer > addr_start && buffer < addr_end`, with addr_end the last byte of the area.
abbrev pub inside : Column → ℕ → Bool
inside c b = ltb c.addr_start b && ltb (b + 1) (c.addr_start + area c)

-- The loop of FREE: whether a column took the block.
unfoldable pub free_loop : (buffer : ℕ) → List Column → Option (Bool × List Column)
free_loop b [] = some (false, [])
free_loop b (c ∷ cs) =
    let rest = free_loop b cs in
    if inside c b
    then push b c >>= (λ c'. some (true, c' ∷ cs))
    else rest >>= (λ (found, cs'). some (found, c ∷ cs'))

-- An address in the area of a column.
abbrev pub owned : (buffer : ℕ) → List Column → Bool
owned b [] = false
owned b (c ∷ cs) = (leb c.addr_start b && ltb b (c.addr_start + area c)) || owned b cs

-- FREE: whether a column took the block. Otherwise it is given to free, which releases the whole area
-- of a column, or fails, if the address is the pool's own.
unfoldable pub free_block : (buffer : ℕ) → List Column → Option (Bool × List Column)
free_block b cs =
    free_loop b cs >>= (λ (found, cs'). if not found && owned b cs then none else some (found, cs'))
