-- ===== src/Pool/Tests.antt =====
-- The pool with two columns: four blocks of 8 bytes and two of 16.
use c_framework_to_server.Base.{ℕ, ◌≡◌, refl, some, List, [], ◌∷◌, All, arith}
use c_framework_to_server.Pool.{
  Column, Buffer, pooled, malloc_init, init_column, malloc_block, malloc_loop,
}
use c_framework_to_server.Pool.Serve.{LastLargest, Served, malloc_block-Served}
use c_framework_to_server.Pool.Return.{Separate}
use c_framework_to_server.Base.Int.{pos}
use c_framework_to_server.Text.{codes, decimal, digits}
use c_framework_to_server.Pool.Setup.{memory_pool_init, memory_pool_init-print}
use c_framework_to_server.Pool.Lending.{IsOnce, here, later, take_block, malloc_init-Reach-IsOnce}
use c_framework_to_server.Pool.Init.{SpecFits, malloc_init-ColumnValid}

abbrev specs : List (ℕ × ℕ × ℕ)
specs = (1000, 8, 4) ∷ (2000, 16, 2) ∷ []

abbrev pool : List Column
pool = malloc_init specs

specs-SpecFits : All SpecFits specs
specs-SpecFits = omega arith

pool-Separate : Separate pool
pool-Separate = ground arith

pool-LastLargest : LastLargest pool
pool-LastLargest = (init_column 2000 16 2, (refl, omega arith))

malloc_block-Served_example :
    (buffer : Buffer) × ((cs' : List Column) × ((malloc_block 5 pool ≡ some (buffer, cs'))
        × Served 5 pool buffer cs'))
malloc_block-Served_example =
    malloc_block-Served 5 pool (malloc_init-ColumnValid specs specs-SpecFits) pool-LastLargest

abbrev lent : List Column
lent = record (init_column 1000 8 4) { remain_count = 3 } ∷ init_column 2000 16 2 ∷ []

malloc_five : malloc_block 5 pool ≡ some (pooled 1024, lent)
unfolding malloc_block malloc_loop
malloc_five = refl

malloc_init-Reach-IsOnce_example : IsOnce (record { columns = lent; held = 1024 ∷ [] })
malloc_init-Reach-IsOnce_example =
    malloc_init-Reach-IsOnce specs (record { columns = lent; held = 1024 ∷ [] }) specs-SpecFits
      pool-Separate (later here (take_block 5 1024 lent malloc_five))

memory_pool_init-print_example :
    memory_pool_init (1000 ∷ 2000 ∷ []) (codes "2") (codes "[8,16]") (codes "[4,2]")
    ≡ some (pos 0, pool)
unfolding decimal digits
memory_pool_init-print_example =
    memory_pool_init-print specs (omega arith) (omega arith) (omega arith)
