-- ===== src/Config.antt =====
-- The configuration of cFrameworkToServer/utils/config.c: lines of a key, an equals sign and a value,
-- in a hash table that is a parameter. The file is the list of its bytes. `none` is undefined
-- behaviour: the NULL that Trim returns for an empty string.
pub mod Reads
pub mod Lines
pub mod Tests
use c_framework_to_server.Base.{
  ℕ, zero, suc, length, Bool, true, false, ◌||◌, Option, none, some, List, [], ◌∷◌, map, ◌==◌,
  if◌then◌else◌,
}
use c_framework_to_server.Base.Int.{ℤ}
use c_framework_to_server.Base.CStrings.{c_str}
use c_framework_to_server.Basic.{trim}
use c_framework_to_server.Memory.{◌>>=◌}
use c_framework_to_server.Errors.{return_ok, err_config_file_open_fail}

-- The table of dict.c as dictCreateEx makes it, which copies keys and values.
pub record ConfigDict : Type 1 where
  pub Table : Type 0
  pub dict_create_ex : Table
  pub dict_add : Table → List ℕ → List ℕ → ℤ × Table
  pub dict_replace : Table → List ℕ → List ℕ → ℤ × Table
  pub dict_fetch_value : Table → List ℕ → Option (List ℕ)

-- strstr(buff_line, "="): what stands before the first equals sign and behind it.
unfoldable pub split_line : List ℕ → Option (List ℕ × List ℕ)
split_line [] = none
split_line (c ∷ s) =
    let rest = split_line s in
    if c == b'=' then some ([], s) else rest >>= (λ (left, right). some (c ∷ left, right))

abbrev pub is_break : ℕ → Bool
is_break c = (c == 10) || (c == 13)

-- The loop that ends the value at a line break, from its end down to the second character: the first
-- one stays.
abbrev pub strip_breaks : List ℕ → List ℕ
strip_breaks [] = []
strip_breaks (c ∷ s) = c_str (c ∷ map (λ x. if is_break x then 0 else x) s)

-- A comment or an empty line.
abbrev pub is_skipped : List ℕ → Bool
is_skipped [] = false
is_skipped (c ∷ s) = (c == b'#') || is_break c

-- fgets into an array of n + 1 chars: what it reads, what is left of the file, and whether it has met
-- the end of the file.
unfoldable pub fgets : (n : ℕ) (file : List ℕ) → List ℕ × List ℕ × Bool
fgets zero file = ([], file, false)
fgets (suc n) [] = ([], [], true)
fgets (suc n) (c ∷ file) =
    let (line, rest, eof) = fgets n file in
    if c == 10 then (c ∷ [], file, false) else (c ∷ line, rest, eof)

-- The string in the array behind fgets, or its NULL where nothing is left to read.
abbrev pub read_of : List ℕ → Option (List ℕ)
read_of [] = none
read_of (c ∷ line) = some (c_str (c ∷ line))

-- What fgets gives in the rounds of the loop until feof, into an array of 512 chars. Each round but
-- the last reads a byte.
unfoldable pub file_reads : (fuel : ℕ) (file : List ℕ) → List (Option (List ℕ))
unfolding fgets
file_reads zero file = []
file_reads (suc f) file =
    let (line, rest, eof) = fgets 511 file in
    let later = file_reads f rest in read_of line ∷ (if eof then [] else later)

module _ (dict : ConfigDict) where
  open dict use {Table, dict_create_ex, dict_add, dict_replace, dict_fetch_value}

  -- One round behind fgets: what the line buffer holds afterwards as a string, and the table.
  abbrev pub read_line : List ℕ → Table → Option (List ℕ × Table)
  read_line buff_line t =
      if is_skipped buff_line then some (buff_line, t) else elim (split_line buff_line) [
        | none ↦ some (buff_line, t)
        | some (left, right) ↦ trim left >>= (λ key.
            trim (strip_breaks right) >>= (λ value. some (left, (dict_add t key value).1)))
      ]

  -- The loop, until feof. Where fgets returns NULL the buffer is as the last round has left it: the
  -- memset before it has its arguments swapped and does nothing.
  unfoldable pub read_lines : List (Option (List ℕ)) → (buff_line : List ℕ) → Table → Option Table
  read_lines [] buff_line t = some t
  read_lines (none ∷ reads) buff_line t =
      read_line buff_line t >>= (λ (buff', t'). read_lines reads buff' t')
  read_lines (some line ∷ reads) buff_line t =
      read_line line t >>= (λ (buff', t'). read_lines reads buff' t')

  -- configerInit, for the bytes of the file, `none` if fopen fails, and what the array holds at first.
  abbrev pub configer_init : (file : Option (List ℕ)) (buff_line : List ℕ) → Option (ℤ × Table)
  configer_init none buff_line = some (err_config_file_open_fail, dict_create_ex)
  configer_init (some file) buff_line =
      read_lines (file_reads (suc (length file)) file) buff_line dict_create_ex
      >>= (λ t. some (return_ok, t))

  abbrev pub get_config : List ℕ → Table → Option (List ℕ)
  get_config key t = dict_fetch_value t key

  abbrev pub set_config : (key value : List ℕ) → Table → ℤ × Table
  set_config key value t = dict_replace t key value

  abbrev pub add_config : (key value : List ℕ) → Table → ℤ × Table
  add_config key value t = dict_add t key value
