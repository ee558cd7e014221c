-- ===== src/Config/Tests.antt =====
-- The configuration of cFrameworkToServer/utils/config.c on small files.
use c_framework_to_server.Base.{ℕ, ◌≡◌, refl, none, some, List, [], ◌∷◌, ◌++◌, arith}
use c_framework_to_server.Base.Int.{ℤ, pos}
use c_framework_to_server.Base.CStrings.{c_str}
use c_framework_to_server.Basic.{trim}
use c_framework_to_server.Text.{codes}
use c_framework_to_server.Errors.{return_ok}
use c_framework_to_server.Cache.Laws.{str_eq-eq}
use c_framework_to_server.Config.{ConfigDict, split_line, read_line, configer_init, get_config}
use c_framework_to_server.Config.Reads.{print_file}
use c_framework_to_server.Config.Lines.{LawfulConfigDict, first_value, configer_init-print}

abbrev pub Entries : Type 0
Entries = List (List ℕ × List ℕ)

abbrev pub add_value : Entries → List ℕ → List ℕ → ℤ × Entries
add_value t k v = elim (first_value t k) [ none ↦ (pos 0, (k, v) ∷ t) | some old ↦ (pos 1, t) ]

-- A table as a list of entries.
abbrev pub list_config : ConfigDict
list_config = record {
  Table = Entries;
  dict_create_ex = [];
  dict_add = add_value;
  dict_replace = λ t k v. (pos 0, (k, v) ∷ t);
  dict_fetch_value = first_value;
}

list_config-LawfulConfigDict : LawfulConfigDict list_config
list_config-LawfulConfigDict = record {
  fetch_create = λ k. refl;
  fetch_add = λ t k v k'. ground (arith, str_eq-eq k' k);
}

abbrev port : List ℕ × List ℕ
port = (codes "Port", codes "80")

configer_init-print_example :
    (t : Entries) × (configer_init list_config (some (print_file (port ∷ []))) []
      ≡ some (return_ok, t))
    × ((key : List ℕ) → get_config list_config key t ≡ first_value (port ∷ []) key)
configer_init-print_example =
    configer_init-print list_config list_config-LawfulConfigDict port [] [] (search arith)

-- The line break stays where no value stands before it.
empty_value :
    read_line list_config (codes "Path=" ++ 10 ∷ []) []
    ≡ some (codes "Path", (codes "Path", 10 ∷ []) ∷ [])
unfolding split_line c_str trim
empty_value = refl
