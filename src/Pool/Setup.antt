-- ===== src/Pool/Setup.antt =====
-- The two ends of the memory pool in cFrameworkToServer/utils/memory_pool.c: memoryPoolInit, which
-- reads the lengths and counts of the blocks from the texts of the configuration, and
-- memoryPoolUnInit. b_p is NULL where there is no column.
use c_framework_to_server.Base.{
  ℕ, zero, suc, ◌-◌, ◌%◌, ◌^◌, ◌<◌, ◌≡◌, refl, sym, ap, ◌∙◌, Option, none, some, List, [], ◌∷◌,
  ◌++◌, length, length-map, map, ◌==◌, if◌then◌else◌, arith, All,
}
use c_framework_to_server.Base.Int.{ℤ, pos, negsuc}
use c_framework_to_server.Text.{codes, decimal, atoi}
use c_framework_to_server.Text.Decimal.{IsDigit, atoi-decimal, decimal-IsDigit, decimal-first}
use c_framework_to_server.Memory.{◌>>=◌}
use c_framework_to_server.Errors.{return_ok, err_memory_pool_not_init}
use c_framework_to_server.Pool.{Column, malloc_init}

-- Up to the first ',' and behind it.
unfoldable pub until_comma : List ℕ → List ℕ × List ℕ
until_comma [] = ([], [])
until_comma (c ∷ s) =
    let (token, rest) = until_comma s in if c == b',' then ([], s) else (c ∷ token, rest)

-- One call of strtok(p, ","), which skips commas before a token.
unfoldable pub strtok : List ℕ → Option (List ℕ × List ℕ)
unfolding until_comma
strtok [] = none
strtok (c ∷ s) = let later = strtok s in if c == b',' then later else some (until_comma (c ∷ s))

-- Assigned to an unsigned int.
abbrev pub to_unsigned : ℤ → ℕ
to_unsigned (pos n) = n % 2 ^ 32
to_unsigned (negsuc n) = (2 ^ 32 - suc n % 2 ^ 32) % 2 ^ 32

-- A loop over the columns; atoi gets NULL if there are not enough numbers.
unfoldable pub read_numbers : (colume_no : ℕ) → List ℕ → Option (List ℕ)
unfolding strtok
read_numbers zero s = some []
read_numbers (suc n) s = do
  r ← strtok s
  let (token, rest) = r
  numbers ← read_numbers n rest
  some (to_unsigned (atoi token) ∷ numbers)

-- What stands before the first ']'; strchr gives NULL if there is none.
unfoldable pub before_bracket : List ℕ → Option (List ℕ)
before_bracket [] = none
before_bracket (c ∷ s) =
    let rest = before_bracket s in if c == b']' then some [] else rest >>= (λ t. some (c ∷ t))

-- `*strchr(text++, ']') = 0`: the first character is skipped, whatever it is.
abbrev pub list_text : List ℕ → Option (List ℕ)
list_text [] = none
list_text (c ∷ s) = if c == b']' then some s else before_bracket s

-- The arrays that MALLOC_INIT gets, with the addresses of the areas.
abbrev pub columns_of : (areas block_len block_count : List ℕ) → List (ℕ × ℕ × ℕ)
columns_of [] lens counts = []
columns_of (a ∷ areas) [] counts = []
columns_of (a ∷ areas) (len ∷ lens) [] = []
columns_of (a ∷ areas) (len ∷ lens) (count ∷ counts) =
    (a, len, count) ∷ columns_of areas lens counts

-- memoryPoolInit, which returns 0 whatever MALLOC_INIT returns. What a negative number of columns
-- does depends on malloc and counts as undefined.
abbrev pub memory_pool_init :
    (areas colume_no_str block_len_str block_count_str : List ℕ) → Option (ℤ × List Column)
memory_pool_init areas no_str len_str count_str = do
  lens ← list_text len_str
  counts ← list_text count_str
  elim (atoi no_str) [
    | negsuc n ↦ none
    | pos colume_no ↦ do
      block_len ← read_numbers colume_no lens
      block_count ← read_numbers colume_no counts
      some (pos 0, malloc_init (columns_of areas block_len block_count))
  ]

-- memoryPoolUnInit.
abbrev pub memory_pool_un_init : List Column → ℤ × List Column
memory_pool_un_init [] = (err_memory_pool_not_init, [])
memory_pool_un_init (c ∷ cs) = (return_ok, [])

-- Numbers with commas between them.
abbrev pub with_commas : List ℕ → List ℕ
with_commas [] = []
with_commas (n ∷ []) = decimal (pos n)
with_commas (n ∷ m ∷ ns) = decimal (pos n) ++ b',' ∷ with_commas (m ∷ ns)

abbrev pub bracketed : List ℕ → List ℕ
bracketed ns = codes "[" ++ with_commas ns ++ codes "]"

until_comma-digits : (d s : List ℕ) → All IsDigit d → until_comma (d ++ b',' ∷ s) ≡ (d, s)
unfolding until_comma
until_comma-digits [] s h = refl
until_comma-digits (c ∷ d) s ((low, high), hs) = rw (until_comma-digits d s hs) (ground arith)

until_comma-last : (d : List ℕ) → All IsDigit d → until_comma d ≡ (d, [])
unfolding until_comma
until_comma-last [] h = refl
until_comma-last (c ∷ d) ((low, high), hs) = rw (until_comma-last d hs) (ground arith)

strtok-IsDigit : (c : ℕ) (s : List ℕ) → IsDigit c → strtok (c ∷ s) ≡ some (until_comma (c ∷ s))
unfolding strtok
strtok-IsDigit c s (low, high) = ground arith

strtok-decimal :
    (n : ℕ) (s : List ℕ) → strtok (decimal (pos n) ++ b',' ∷ s) ≡ some (decimal (pos n), s)
strtok-decimal n s =
    let (c, t, e, digit) = decimal-first n in
    ap (λ d. strtok (d ++ b',' ∷ s)) e
    ∙ strtok-IsDigit c (t ++ b',' ∷ s) digit
    ∙ ap (λ d. some (until_comma (d ++ b',' ∷ s))) (sym e)
    ∙ ap some (until_comma-digits (decimal (pos n)) s (decimal-IsDigit n))

strtok-last : (n : ℕ) → strtok (decimal (pos n)) ≡ some (decimal (pos n), [])
strtok-last n =
    let (c, t, e, digit) = decimal-first n in
    ap strtok e
    ∙ strtok-IsDigit c t digit
    ∙ ap (λ d. some (until_comma d)) (sym e)
    ∙ ap some (until_comma-last (decimal (pos n)) (decimal-IsDigit n))

to_unsigned-decimal : (n : ℕ) → n < 2 ^ 31 → to_unsigned (atoi (decimal (pos n))) ≡ n
to_unsigned-decimal n h = ap to_unsigned (atoi-decimal n (omega arith)) ∙ omega arith

read_numbers-step :
    (k n : ℕ) (s rest ns : List ℕ)
    → n < 2 ^ 31
    → strtok s ≡ some (decimal (pos n), rest)
    → read_numbers k rest ≡ some ns
    → read_numbers (suc k) s ≡ some (n ∷ ns)
unfolding read_numbers
read_numbers-step k n s rest ns h first others = rw (first, others, to_unsigned-decimal n h) refl

read_numbers-commas :
    (ns : List ℕ) → All (λ n. n < 2 ^ 31) ns → read_numbers (length ns) (with_commas ns) ≡ some ns
unfolding read_numbers
read_numbers-commas [] h = refl
read_numbers-commas (n ∷ []) h =
    read_numbers-step 0 n (decimal (pos n)) [] [] h.0 (strtok-last n) refl
read_numbers-commas (n ∷ m ∷ ns) (h, hs) =
    read_numbers-step (length (m ∷ ns)) n (decimal (pos n) ++ b',' ∷ with_commas (m ∷ ns))
      (with_commas (m ∷ ns)) (m ∷ ns) h (strtok-decimal n (with_commas (m ∷ ns)))
      (read_numbers-commas (m ∷ ns) hs)

abbrev NoBracket : ℕ → Type 0
NoBracket c = c < b']'

before_bracket-clear : (s : List ℕ) → All NoBracket s → before_bracket (s ++ codes "]") ≡ some s
unfolding before_bracket
before_bracket-clear [] h = refl
before_bracket-clear (c ∷ s) (h, hs) = rw (before_bracket-clear s hs) (ground arith)

NoBracket-append : (s t : List ℕ) → All IsDigit s → All NoBracket t → All NoBracket (s ++ t)
NoBracket-append [] t hs ht = ht
NoBracket-append (c ∷ s) t ((low, high), hs) ht = (omega arith, NoBracket-append s t hs ht)

NoBracket-digits : (s : List ℕ) → All IsDigit s → All NoBracket s
NoBracket-digits [] h = tt
NoBracket-digits (c ∷ s) ((low, high), hs) = (omega arith, NoBracket-digits s hs)

with_commas-NoBracket : (ns : List ℕ) → All NoBracket (with_commas ns)
with_commas-NoBracket [] = tt
with_commas-NoBracket (n ∷ []) = NoBracket-digits (decimal (pos n)) (decimal-IsDigit n)
with_commas-NoBracket (n ∷ m ∷ ns) =
    NoBracket-append (decimal (pos n)) (b',' ∷ with_commas (m ∷ ns)) (decimal-IsDigit n)
      (omega arith, with_commas-NoBracket (m ∷ ns))

list_text-bracketed : (ns : List ℕ) → list_text (bracketed ns) ≡ some (with_commas ns)
list_text-bracketed ns = before_bracket-clear (with_commas ns) (with_commas-NoBracket ns)

abbrev pub addresses : List (ℕ × ℕ × ℕ) → List ℕ
addresses = map (λ (a, len, count). a)

abbrev pub lengths : List (ℕ × ℕ × ℕ) → List ℕ
lengths = map (λ (a, len, count). len)

abbrev pub counts : List (ℕ × ℕ × ℕ) → List ℕ
counts = map (λ (a, len, count). count)

columns_of-parts :
    (specs : List (ℕ × ℕ × ℕ)) → columns_of (addresses specs) (lengths specs) (counts specs) ≡ specs
columns_of-parts [] = refl
columns_of-parts (spec ∷ specs) = ap (λ rest. spec ∷ rest) (columns_of-parts specs)

read_numbers-map :
    (f : ℕ × ℕ × ℕ → ℕ) (specs : List (ℕ × ℕ × ℕ))
    → All (λ n. n < 2 ^ 31) (map f specs)
    → read_numbers (length specs) (with_commas (map f specs)) ≡ some (map f specs)
read_numbers-map f specs fits =
    ap (λ k. read_numbers k (with_commas (map f specs))) (sym (length-map f specs))
    ∙ read_numbers-commas (map f specs) fits

-- memoryPoolInit reads what it is given: of the number of columns, the lengths in brackets and the
-- counts in brackets, each printed with commas between the numbers, it makes the columns of these
-- lengths and counts. All the numbers fit an int.
pub memory_pool_init-print :
    (specs : List (ℕ × ℕ × ℕ))
    → length specs < 2 ^ 31
    → All (λ n. n < 2 ^ 31) (lengths specs)
    → All (λ n. n < 2 ^ 31) (counts specs)
    → memory_pool_init
        (addresses specs)
        (decimal (pos (length specs)))
        (bracketed (lengths specs))
        (bracketed (counts specs))
      ≡ some (pos 0, malloc_init specs)
memory_pool_init-print specs few fits fits' =
    rw
      (
        list_text-bracketed (lengths specs),
        list_text-bracketed (counts specs),
        atoi-decimal (length specs) (omega arith),
        read_numbers-map _ specs fits,
        read_numbers-map _ specs fits',
        columns_of-parts specs,
      )
      refl
