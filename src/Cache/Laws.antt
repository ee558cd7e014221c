-- ===== src/Cache/Laws.antt =====
-- What the caches rely on of the hash table, and a property of every entry that the operations keep.
use c_framework_to_server.Base.{
  ℕ, true, Option, none, some, List, [], ◌∷◌, ◌≡◌, refl, sym, subst, inl, inr, Bool-cases, arith,
  if◌then◌else◌,
}
use c_framework_to_server.Base.Int.{ℤ, pos}
use c_framework_to_server.Text.{str_eq}
use c_framework_to_server.Cache.{Object, Dict}

pub str_eq-eq : (s t : List ℕ) → str_eq s t ≡ true → s ≡ t
str_eq-eq [] [] h = refl
str_eq-eq [] (b ∷ t) h = cc
str_eq-eq (a ∷ s) [] h = cc
str_eq-eq (a ∷ s) (b ∷ t) h = ground (arith, str_eq-eq s t)

pub str_eq_refl : (s : List ℕ) → str_eq s s ≡ true
str_eq_refl [] = refl
str_eq_refl (a ∷ s) = ground (arith, str_eq_refl s)

-- The value that a key keeps when another is added under it.
abbrev pub kept : Option Object → Object → Object
kept none obj = obj
kept (some old) obj = old

abbrev pub overwritten : Option Object → Object → Option Object
overwritten none obj = none
overwritten (some old) obj = some obj

-- dict.c: dictAdd refuses a key that is there, dictReplace and dictDelete do not.
pub record LawfulDict (d : Dict) : Type 0 where
  pub fetch_create : (k : List ℕ) → d.dict_fetch_value d.dict_create k ≡ none
  pub fetch_add :
      (t : d.Table) (k : List ℕ) (obj : Object) (k' : List ℕ)
      → d.dict_fetch_value (d.dict_add t k obj).1 k' ≡ (
          if str_eq k' k then some (kept (d.dict_fetch_value t k) obj) else d.dict_fetch_value t k')
  pub fetch_replace :
      (t : d.Table) (k : List ℕ) (obj : Object) (k' : List ℕ)
      → d.dict_fetch_value (d.dict_replace t k obj).1 k'
        ≡ (if str_eq k' k then some obj else d.dict_fetch_value t k')
  pub fetch_delete :
      (t : d.Table) (k k' : List ℕ)
      → d.dict_fetch_value (d.dict_delete t k).1 k'
        ≡ (if str_eq k' k then none else d.dict_fetch_value t k')
  pub fetch_assign :
      (t : d.Table) (k : List ℕ) (obj : Object) (k' : List ℕ)
      → d.dict_fetch_value (d.dict_assign t k obj) k' ≡ (
          if str_eq k' k then overwritten (d.dict_fetch_value t k) obj else d.dict_fetch_value t k')

abbrev pub OnSome {ℓ} : {A : Type ℓ} → (A → Type 0) → Option A → Type 0
OnSome P none = Unit
OnSome P (some a) = P a

module _ (d : Dict) (lawful : LawfulDict d) (P : List ℕ → Object → Type 0) where
  open d use {Table, dict_create, dict_add, dict_delete, dict_fetch_value, dict_assign}

  -- Every entry has the property.
  abbrev pub EveryEntry : Table → Type 0
  EveryEntry t = (k : List ℕ) → OnSome (P k) (dict_fetch_value t k)

  pub dict_create-EveryEntry : EveryEntry dict_create
  dict_create-EveryEntry k = rw (lawful.fetch_create k) tt

  kept-OnSome :
      (k : List ℕ) (old : Option Object) (obj : Object)
      → OnSome (P k) old
      → P k obj
      → P k (kept old obj)
  kept-OnSome k none obj h a = a
  kept-OnSome k (some old) obj h a = h

  overwritten-OnSome :
      (k : List ℕ) (old : Option Object) (obj : Object)
      → P k obj
      → OnSome (P k) (overwritten old obj)
  overwritten-OnSome k none obj a = tt
  overwritten-OnSome k (some old) obj a = a

  pub dict_add-EveryEntry :
      (t : Table) (k : List ℕ) (obj : Object)
      → EveryEntry t
      → P k obj
      → EveryEntry (dict_add t k obj).1
  dict_add-EveryEntry t k obj h a k' = elim (Bool-cases (str_eq k' k)) [
    | inl e ↦
        rw (lawful.fetch_add t k obj k', e)
          (subst (λ x. P x (kept (dict_fetch_value t k) obj)) (sym (str_eq-eq k' k e))
            (kept-OnSome k (dict_fetch_value t k) obj (h k) a))
    | inr e ↦ rw (lawful.fetch_add t k obj k', e) (h k')
  ]

  pub dict_delete-EveryEntry :
      (t : Table) (k : List ℕ) → EveryEntry t → EveryEntry (dict_delete t k).1
  dict_delete-EveryEntry t k h k' = elim (Bool-cases (str_eq k' k)) [
    | inl e ↦ rw (lawful.fetch_delete t k k', e) tt
    | inr e ↦ rw (lawful.fetch_delete t k k', e) (h k')
  ]

  pub dict_assign-EveryEntry :
      (t : Table) (k : List ℕ) (obj : Object)
      → EveryEntry t
      → P k obj
      → EveryEntry (dict_assign t k obj)
  dict_assign-EveryEntry t k obj h a k' = elim (Bool-cases (str_eq k' k)) [
    | inl e ↦
        rw (lawful.fetch_assign t k obj k', e)
          (subst (λ x. OnSome (P x) (overwritten (dict_fetch_value t k) obj))
            (sym (str_eq-eq k' k e)) (overwritten-OnSome k (dict_fetch_value t k) obj a))
    | inr e ↦ rw (lawful.fetch_assign t k obj k', e) (h k')
  ]

-- A table as a list of entries, the newest first.
abbrev pub Entries : Type 0
Entries = List (List ℕ × Object)

unfoldable pub find : Entries → List ℕ → Option Object
find [] k = none
find ((k1, obj) ∷ t) k = if str_eq k k1 then some obj else find t k

unfoldable pub remove : Entries → List ℕ → Entries
remove [] k = []
remove ((k1, obj) ∷ t) k = if str_eq k1 k then remove t k else (k1, obj) ∷ remove t k

abbrev pub add_entry : Entries → List ℕ → Object → ℤ × Entries
add_entry t k obj = elim (find t k) [ none ↦ (pos 0, (k, obj) ∷ t) | some old ↦ (pos 1, t) ]

abbrev pub assign_entry : Entries → List ℕ → Object → Entries
assign_entry t k obj = elim (find t k) [ none ↦ t | some old ↦ (k, obj) ∷ t ]

abbrev pub list_dict : Dict
list_dict = record {
  Table = Entries;
  dict_create = [];
  dict_add = add_entry;
  dict_replace = λ t k obj. (pos 0, (k, obj) ∷ t);
  dict_delete = λ t k. (pos 0, remove t k);
  dict_fetch_value = find;
  dict_assign = assign_entry;
}

str_eq_sym : (s t : List ℕ) → str_eq s t ≡ str_eq t s
str_eq_sym [] [] = refl
str_eq_sym [] (b ∷ t) = refl
str_eq_sym (a ∷ s) [] = refl
str_eq_sym (a ∷ s) (b ∷ t) = ground (arith, str_eq_sym s t)

find-remove :
    (t : Entries) (k k' : List ℕ) → find (remove t k) k' ≡ (if str_eq k' k then none else find t k')
unfolding find remove
find-remove [] k k' = ground arith
find-remove ((k1, obj) ∷ t) k k' = ground (
  arith,
  find-remove t k k',
  str_eq-eq k' k1,
  str_eq-eq k' k,
  str_eq-eq k1 k,
  str_eq_refl k,
  str_eq_refl k1,
  str_eq_refl k',
)

find-add_entry :
    (t : Entries) (k : List ℕ) (obj : Object) (k' : List ℕ)
    → find (add_entry t k obj).1 k'
      ≡ (if str_eq k' k then some (kept (find t k) obj) else find t k')
unfolding find
find-add_entry t k obj k' = ground (arith, str_eq-eq k' k)

find-assign_entry :
    (t : Entries) (k : List ℕ) (obj : Object) (k' : List ℕ)
    → find (assign_entry t k obj) k'
      ≡ (if str_eq k' k then overwritten (find t k) obj else find t k')
unfolding find
find-assign_entry t k obj k' = ground (arith, str_eq-eq k' k)

pub list_dict-LawfulDict : LawfulDict list_dict
unfolding find
list_dict-LawfulDict = record {
  fetch_create = λ k. refl;
  fetch_add = find-add_entry;
  fetch_replace = λ t k obj k'. refl;
  fetch_delete = find-remove;
  fetch_assign = find-assign_entry;
}
