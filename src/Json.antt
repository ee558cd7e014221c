-- ===== src/Json.antt =====
-- The cJSON library as the code uses it, and the loops by which the three models read a JSON object
-- into a structure and write one. `makeErrorJson` is that of cFrameworkToServer/utils/error.c.
use c_framework_to_server.Base.{
  ℕ, Bool, false, not, ◌&&◌, Option, none, some, List, [], ◌∷◌, if◌then◌else◌,
}
use c_framework_to_server.Base.Int.{ℤ}
use c_framework_to_server.Text.{codes, strstr, strcpy}
use c_framework_to_server.Sql.{Field, text, number, unmarked, is_set}

-- A cJSON item; `valuestring` is NULL where the item is no string.
pub record Item : Type 0 where
  pub valueint : ℤ
  pub valuestring : Option (List ℕ)

-- A member that is added to an object.
pub data Member : Type 0 where
  string : (name value : List ℕ) → Member
  num : (name : List ℕ) → (value : ℤ) → Member

pub record CJson : Type 1 where
  pub Json : Type 0
  pub parse : List ℕ → Option Json
  pub get_object_item : Json → List ℕ → Option Item
  -- cJSON_Print of an object with these members
  pub print : List Member → List ℕ

module _ (c_json : CJson) where
  open c_json use {Json, get_object_item, print}

  -- `temp = cJSON_GetObjectItem(json, name); if (temp != NULL) strcpy(field, temp->valuestring);`
  -- `none`: the string is NULL or too long for the field.
  abbrev pub read_string : Json → (name : List ℕ) → (size : ℕ) → (old : List ℕ) → Option (List ℕ)
  read_string json name size old = elim (get_object_item json name) [
    | none ↦ some old
    | some item ↦ elim item.valuestring [ none ↦ none | some value ↦ strcpy size value ]
  ]

  abbrev pub read_int : Json → (name : List ℕ) → (old : ℤ) → ℤ
  read_int json name old = elim (get_object_item json name) [
    | none ↦ old
    | some item ↦ item.valueint
  ]

  unfoldable pub make_error_json : (errcode : ℤ) → (errmsg : List ℕ) → List ℕ
  make_error_json errcode errmsg =
      print (num (codes "errcode") errcode ∷ string (codes "errmsg") errmsg ∷ [])

abbrev pub name_of : Field → List ℕ
name_of (text name value) = name
name_of (number name value) = name
name_of (unmarked name value) = name

abbrev pub member_of : Field → Member
member_of (text name value) = string name value
member_of (number name value) = num name value
member_of (unmarked name value) = num name value

-- The members of the fields that are set and whose names are no part of `remove_field`.
unfoldable pub json_members : (remove_field : Option (List ℕ)) → List Field → List Member
json_members remove_field [] = []
json_members remove_field (f ∷ fs) =
    let removed : Bool = elim remove_field [
      | none ↦ false
      | some names ↦ strstr names (name_of f)
    ] in
    if is_set f && not removed
    then member_of f ∷ json_members remove_field fs
    else json_members remove_field fs
