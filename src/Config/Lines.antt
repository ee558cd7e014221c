-- ===== src/Config/Lines.antt =====
-- The lines of a configuration file, as cFrameworkToServer/utils/config.c reads them.
use c_framework_to_server.Base.{
  ℕ, suc, ◌<◌, ◌≡◌, refl, sym, ap, ◌∙◌, ◌≢◌, false, Option, none, some, List, [], ◌∷◌, ◌++◌, map,
  All, arith, Bool-cases, inl, inr, if◌then◌else◌, length,
}
use c_framework_to_server.Base.CStrings.{c_str, IsChar}
use c_framework_to_server.Basic.{trim}
use c_framework_to_server.Basic.Strings.{IsVisible, trim_self}
use c_framework_to_server.Errors.{return_ok}
use c_framework_to_server.Text.{str_eq}
use c_framework_to_server.Cache.Laws.{str_eq-eq}
use c_framework_to_server.Memory.{◌>>=◌}
use c_framework_to_server.Config.Reads.{
  IsWordChar, IsKey, IsValue, print_line, AllEntries, print_file, reads_of, file_reads-print,
  length-print_file,
}
use c_framework_to_server.Config.{
  ConfigDict, split_line, is_break, strip_breaks, is_skipped, read_line, read_lines, configer_init,
  get_config,
}

split_line-print : (k r : List ℕ) → All (λ c. c ≢ b'=') k → split_line (k ++ b'=' ∷ r) ≡ some (k, r)
unfolding split_line
split_line-print [] r h = refl
split_line-print (c ∷ k) r h = ground (arith, split_line-print k r h.1)

split_line-none : (k : List ℕ) → All (λ c. c ≢ b'=') k → split_line k ≡ none
unfolding split_line
split_line-none [] h = refl
split_line-none (c ∷ k) h = ground (arith, split_line-none k h.1)

c_str-cut :
    (s : List ℕ)
    → All (λ c. IsWordChar c) s
    → c_str (map (λ x. if is_break x then 0 else x) (s ++ 10 ∷ [])) ≡ s
unfolding c_str
c_str-cut [] h = refl
c_str-cut (c ∷ s) h = ground (arith, c_str-cut s h.1)

strip_breaks-value : (v : List ℕ) → IsValue v → strip_breaks (v ++ 10 ∷ []) ≡ v
unfolding c_str
strip_breaks-value [] h = absurd (omega arith)
strip_breaks-value (c ∷ s) h = ground (arith, c_str-cut s h.1.1)

trim-word : (s : List ℕ) → 0 < length s → All (λ c. IsWordChar c) s → trim s ≡ some s
trim-word [] h k = absurd (omega arith)
trim-word (c ∷ s) h k = trim_self c s (chars (c ∷ s) k) (visible (c ∷ s) k)
  where
    chars : (t : List ℕ) → All (λ c. IsWordChar c) t → All IsChar t
    chars [] h = tt
    chars (d ∷ t) h = (h.0.0, chars t h.1)

    visible : (t : List ℕ) → All (λ c. IsWordChar c) t → All IsVisible t
    visible [] h = tt
    visible (d ∷ t) h = (h.0.1, visible t h.1)

is_skipped-append : (k r : List ℕ) → 0 < length k → is_skipped (k ++ r) ≡ is_skipped k
is_skipped-append [] r h = absurd (omega arith)
is_skipped-append (c ∷ k) r h = refl

-- The value that a key keeps when another is added under it.
abbrev pub kept_value : Option (List ℕ) → List ℕ → List ℕ
kept_value none v = v
kept_value (some old) v = old

-- dict.c: dictAdd refuses a key that is there.
pub record LawfulConfigDict (d : ConfigDict) : Type 0 where
  pub fetch_create : (k : List ℕ) → d.dict_fetch_value d.dict_create_ex k ≡ none
  pub fetch_add :
      (t : d.Table) (k v k' : List ℕ)
      → d.dict_fetch_value (d.dict_add t k v).1 k' ≡ (
          if str_eq k' k
          then some (kept_value (d.dict_fetch_value t k) v)
          else d.dict_fetch_value t k')

-- The first value of a key.
abbrev pub first_value : List (List ℕ × List ℕ) → List ℕ → Option (List ℕ)
first_value [] key = none
first_value ((k, v) ∷ entries) key = if str_eq key k then some v else first_value entries key

abbrev pub or_else : Option (List ℕ) → Option (List ℕ) → Option (List ℕ)
or_else none o = o
or_else (some v) o = some v

or_else-none : (o : Option (List ℕ)) → o ≡ or_else o none
or_else-none none = refl
or_else-none (some v) = refl

first_wins : (o : Option (List ℕ)) (v : List ℕ) → some (kept_value o v) ≡ or_else o (some v)
first_wins none v = refl
first_wins (some old) v = refl

module _ (d : ConfigDict) where
  read_line-print :
      (k v : List ℕ) (t : d.Table)
      → IsKey k
      → IsValue v
      → read_line d (print_line (k, v)) t ≡ some (k, (d.dict_add t k v).1)
  read_line-print k v t hk hv =
      let r = v ++ 10 ∷ [] in
      let plain : is_skipped (k ++ b'=' ∷ r) ≡ false = is_skipped-append k (b'=' ∷ r) hk.0 ∙ hk.1 in
      let parts : split_line (k ++ b'=' ∷ r) ≡ some (k, r) = split_line-print k r hk.3 in
      let key : trim k ≡ some k = trim-word k hk.0 hk.2 in
      let value : trim (strip_breaks r) ≡ some v =
        ap trim (strip_breaks-value v hv) ∙ trim-word v hv.0 hv.1 in
      rw (plain, parts, key, value) refl

  read_line-rest :
      (buff_line : List ℕ) (t : d.Table)
      → split_line buff_line ≡ none
      → read_line d buff_line t ≡ some (buff_line, t)
  read_line-rest buff_line t h = elim (Bool-cases (is_skipped buff_line)) [
    | inl e ↦ rw e refl
    | inr e ↦ rw (e, h) refl
  ]

  added :
      (t : d.Table) (k v key : List ℕ) (rest : Option (List ℕ))
      → or_else
          (if str_eq key k
            then some (kept_value (d.dict_fetch_value t k) v)
            else d.dict_fetch_value t key)
          rest
        ≡ or_else (d.dict_fetch_value t key) (if str_eq key k then some v else rest)
  added t k v key rest = elim (Bool-cases (str_eq key k)) [
    | inl e ↦ rw (e) (
        first_wins (d.dict_fetch_value t k) v
        ∙ ap (λ x. or_else (d.dict_fetch_value t x) (some v)) (sym (str_eq-eq key k e)))
    | inr e ↦ rw (e) refl
  ]

  module _ (lawful : LawfulConfigDict d) where
    read_lines-entries :
        (entries : List (List ℕ × List ℕ)) (buff_line : List ℕ) (t : d.Table)
        → AllEntries entries
        → split_line buff_line ≡ none
        → (t' : d.Table) × (read_lines d (reads_of entries) buff_line t ≡ some t')
          × ((key : List ℕ)
              → d.dict_fetch_value t' key
                ≡ or_else (d.dict_fetch_value t key) (first_value entries key))
    unfolding read_lines
    read_lines-entries [] buff_line t h rest = (
      t,
      rw (read_line-rest buff_line t rest) refl,
      λ key. or_else-none (d.dict_fetch_value t key),
    )
    read_lines-entries ((k, v) ∷ entries) buff_line t h rest =
        let (t', run, found) =
          read_lines-entries entries k (d.dict_add t k v).1 h.1 (split_line-none k h.0.0.3) in
        (
          t',
          rw (read_line-print k v t h.0.0 h.0.1) run,
          λ key.
              found key
              ∙ ap (λ o. or_else o (first_value entries key)) (lawful.fetch_add t k v key)
              ∙ added t k v key (first_value entries key),
        )

    -- A file of lines "key=value", each with its line break and of at most 511 bytes, is read back: configerInit returns 0,
    -- and getConfig gives for each key the value of its first line, and nothing for a key that has
    -- none. The keys and values are words without spaces and line breaks, neither is empty, and a key
    -- has no equals sign and does not start with '#'. There is at least one line; what the array of
    -- the line held before does not matter.
    pub configer_init-print :
        (entry : List ℕ × List ℕ) (entries : List (List ℕ × List ℕ)) (buff_line : List ℕ)
        → AllEntries (entry ∷ entries)
        → (t : d.Table) × (configer_init d (some (print_file (entry ∷ entries))) buff_line
            ≡ some (return_ok, t))
          × ((key : List ℕ) → get_config d key t ≡ first_value (entry ∷ entries) key)
    unfolding read_lines
    configer_init-print (k, v) entries buff_line h =
        let t0 = (d.dict_add d.dict_create_ex k v).1 in
        let (t, run, found) = read_lines-entries entries k t0 h.1 (split_line-none k h.0.0.3) in
        let read : read_lines d (reads_of ((k, v) ∷ entries)) buff_line d.dict_create_ex ≡ some t =
          rw (read_line-print k v d.dict_create_ex h.0.0 h.0.1) run in
        (
          t,
          ap
                (λ reads.
                  read_lines d reads buff_line d.dict_create_ex >>= (λ t'. some (return_ok, t')))
                (file_reads-print (suc (length (print_file ((k, v) ∷ entries)))) ((k, v) ∷ entries)
                  h (omega (arith, length-print_file ((k, v) ∷ entries))))
              ∙ rw read refl,
          λ key.
              found key
              ∙ ap (λ o. or_else o (first_value entries key))
                  (lawful.fetch_add d.dict_create_ex k v key)
              ∙ added d.dict_create_ex k v key (first_value entries key)
              ∙ ap (λ o. or_else o (first_value ((k, v) ∷ entries) key)) (lawful.fetch_create key),
        )
