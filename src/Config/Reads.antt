-- ===== src/Config/Reads.antt =====
-- The file of a configuration as fgets cuts it in cFrameworkToServer/utils/config.c.
use c_framework_to_server.Base.{
  ℕ, zero, suc, ◌<◌, ◌≤◌, ◌≡◌, refl, sym, ap, ◌∙◌, ◌≢◌, false, Option, none, some, List, [], ◌∷◌,
  ◌++◌, All, arith, length, length-append,
}
use mathlib.Core.List.{append_assoc}
use c_framework_to_server.Base.CStrings.{c_str, IsChar}
use c_framework_to_server.Basic.Strings.{IsVisible}
use c_framework_to_server.Config.{is_skipped, read_of, fgets, file_reads}

-- A char of a word: no NUL, no space and no line break.
abbrev pub IsWordChar : ℕ → Type 0
IsWordChar c = IsChar c × IsVisible c × (c ≢ 10) × (c ≢ 13)

-- A word that is no comment and has no equals sign.
abbrev pub IsKey : List ℕ → Type 0
IsKey k =
    (0 < length k) × (is_skipped k ≡ false) × All (λ c. IsWordChar c) k × All (λ c. c ≢ b'=') k

abbrev pub IsValue : List ℕ → Type 0
IsValue v = (0 < length v) × All (λ c. IsWordChar c) v

-- A line of a key and a value.
abbrev pub print_line : List ℕ × List ℕ → List ℕ
print_line (k, v) = k ++ b'=' ∷ (v ++ 10 ∷ [])

-- A line fits the array of 512 chars.
abbrev pub AllEntries : List (List ℕ × List ℕ) → Type 0
AllEntries entries =
    All (λ (k, v). IsKey k × IsValue v × (length (print_line (k, v)) < 512)) entries

-- The bytes of a file of these lines, the last with a line break too.
abbrev pub print_file : List (List ℕ × List ℕ) → List ℕ
print_file [] = []
print_file (entry ∷ entries) = print_line entry ++ print_file entries

-- What fgets gives for it.
abbrev pub reads_of : List (List ℕ × List ℕ) → List (Option (List ℕ))
reads_of [] = none ∷ []
reads_of (entry ∷ entries) = some (print_line entry) ∷ reads_of entries

-- A text without NULs and line breaks.
abbrev InLine : List ℕ → Type 0
InLine w = All (λ c. IsChar c × (c ≢ 10)) w

fgets-line :
    (n : ℕ) (w rest : List ℕ)
    → InLine w
    → length w < n
    → fgets n (w ++ 10 ∷ rest) ≡ (w ++ 10 ∷ [], rest, false)
unfolding fgets
fgets-line zero w rest h room = absurd (omega arith)
fgets-line (suc n) [] rest h room = refl
fgets-line (suc n) (c ∷ w) rest ((char, other), h) room =
    rw (fgets-line n w rest h (omega arith)) (ground arith)

c_str-line : (w : List ℕ) → InLine w → c_str (w ++ 10 ∷ []) ≡ w ++ 10 ∷ []
unfolding c_str
c_str-line [] h = refl
c_str-line (c ∷ w) h = ground (arith, c_str-line w h.1)

word-InLine : (w : List ℕ) → All (λ c. IsWordChar c) w → InLine w
word-InLine [] h = tt
word-InLine (c ∷ w) h = ((h.0.0, h.0.2), word-InLine w h.1)

InLine-append : (v w : List ℕ) → InLine v → InLine w → InLine (v ++ w)
InLine-append [] w hv hw = hw
InLine-append (c ∷ v) w (h, hv) hw = (h, InLine-append v w hv hw)

read_of-line : (w : List ℕ) → InLine w → read_of (w ++ 10 ∷ []) ≡ some (w ++ 10 ∷ [])
unfolding c_str
read_of-line [] h = refl
read_of-line (c ∷ w) h = ap some (c_str-line (c ∷ w) h)

file_reads-step :
    (f : ℕ) (w rest : List ℕ)
    → InLine w
    → length w < 511
    → file_reads (suc f) (w ++ 10 ∷ rest) ≡ some (w ++ 10 ∷ []) ∷ file_reads f rest
unfolding file_reads
file_reads-step f w rest h room =
    rw (fgets-line 511 w rest h room) (ap (λ r. r ∷ file_reads f rest) (read_of-line w h))

pub file_reads-print :
    (f : ℕ) (entries : List (List ℕ × List ℕ))
    → AllEntries entries
    → length entries < f
    → file_reads f (print_file entries) ≡ reads_of entries
unfolding file_reads
file_reads-print zero entries h enough = absurd (omega arith)
file_reads-print (suc f) [] h enough = refl
file_reads-print (suc f) ((k, v) ∷ entries) ((key, value, fits), h) enough =
    let w : List ℕ = k ++ b'=' ∷ v in
    let in_line : InLine w =
      InLine-append k (b'=' ∷ v) (word-InLine k key.2)
        ((omega arith, λ e. omega (arith, e)), word-InLine v value.1) in
    let cut : print_line (k, v) ≡ w ++ 10 ∷ [] = sym (append_assoc k (b'=' ∷ v) (10 ∷ [])) in
    let short : length w < 511 = omega (arith, ap length cut, length-append w (10 ∷ []), fits) in
    let rest = print_file entries in
    ap (λ line. file_reads (suc f) (line ++ rest)) cut
    ∙ ap (file_reads (suc f)) (append_assoc w (10 ∷ []) rest)
    ∙ file_reads-step f w rest in_line short
    ∙ ap (λ line. some line ∷ file_reads f rest) (sym cut)
    ∙ ap (λ reads. some (print_line (k, v)) ∷ reads) (file_reads-print f entries h (omega arith))

pub length-print_file :
    (entries : List (List ℕ × List ℕ)) → length entries ≤ length (print_file entries)
length-print_file [] = omega arith
length-print_file ((k, v) ∷ entries) = omega (
  arith,
  length-print_file entries,
  length-append (print_line (k, v)) (print_file entries),
  length-append k (b'=' ∷ (v ++ 10 ∷ [])),
)
