-- ===== src/Pool/Return.antt =====
-- What FREE does with a block that MALLOC has given.
use c_framework_to_server.Base.{ℕ, ◌+◌, ◌≤◌, ◌≡◌, ◌⊎◌, true, Option, none, some, List, [], ◌∷◌, All}
use c_framework_to_server.Pool.{Column, area, Buffer, free_block}
use c_framework_to_server.Pool.Serve.{Served}

-- The areas of the columns do not overlap.
abbrev pub Apart : Column → Column → Type 0
Apart c d = (c.addr_start + area c ≤ d.addr_start) ⊎ (d.addr_start + area d ≤ c.addr_start)

abbrev pub Separate : List Column → Type 0
Separate [] = Unit
Separate (c ∷ cs) = All (Apart c) cs × Separate cs

-- The block starts at the first or at the last byte of a column's area.
abbrev pub AtEdge : (b : ℕ) → List Column → Type 0
AtEdge b [] = ⊥
AtEdge b (c ∷ cs) = ((c.addr_start ≡ b) ⊎ (b + 1 ≡ c.addr_start + area c)) ⊎ AtEdge b cs

-- What FREE of a block comes to: the pool as it was, or undefined behaviour at an edge.
abbrev pub Restored : (b : ℕ) → (cs cs' : List Column) → Type 0
Restored b cs cs' = (free_block b cs' ≡ some (true, cs)) ⊎ (AtEdge b cs × (free_block b cs' ≡ none))

abbrev ServedRun : (size : ℕ) → List Column → Option (Buffer × List Column) → Type 0
ServedRun size cs none = Unit
ServedRun size cs (some (buffer, cs')) = Served size cs buffer cs'
