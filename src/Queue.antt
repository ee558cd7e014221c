-- ===== src/Queue.antt =====
-- The queue operations of cFrameworkToServer/utils/basic_struct/list.c, a list of Redis's with four
-- operations that pop and push at its ends: a parameter here, with what its callers rely on.
use c_framework_to_server.Base.{
  ℕ, Option, none, some, List, [], ◌∷◌, ◌++◌, ◌≡◌, refl, sym, ap, ◌∙◌, length, ◌⊎◌, inl, inr,
  Option-cases,
}
use mathlib.Core.Option

-- `none` is the NULL of an empty list; the pointers that the program stores are not NULL.
pub record Queue (A : Type 0) : Type 1 where
  pub Lst : Type 0
  pub list_create : Lst
  pub list_length : Lst → ℕ
  pub list_add_node_to_head : A → Lst → Lst
  pub list_add_node_to_tail : A → Lst → Lst
  pub list_pop_node_from_head : Lst → Option (A × Lst)
  pub list_pop_node_from_tail : Lst → Option (A × Lst)

module _ {A : Type 0} where
  abbrev pub uncons : List A → Option (A × List A)
  uncons [] = none
  uncons (x ∷ xs) = some (x, xs)

  -- The last element and what stands before it.
  abbrev pub unsnoc : List A → Option (A × List A)
  unsnoc [] = none
  unsnoc (x ∷ xs) = elim (unsnoc xs) [ none ↦ some (x, []) | some (y, ys) ↦ some (y, x ∷ ys) ]

  pub unsnoc-snoc : (xs : List A) (x : A) → unsnoc (xs ++ x ∷ []) ≡ some (x, xs)
  unsnoc-snoc [] x = refl
  unsnoc-snoc (y ∷ xs) x = rw (unsnoc-snoc xs x) refl

  -- The operations act on the sequence of the elements, from the head on.
  pub record LawfulQueue (q : Queue A) : Type 0 where
    pub items : q.Lst → List A
    pub items_create : items q.list_create ≡ []
    pub length_items : (l : q.Lst) → q.list_length l ≡ length (items l)
    pub items_add_head : (x : A) (l : q.Lst) → items (q.list_add_node_to_head x l) ≡ x ∷ items l
    pub items_add_tail :
        (x : A) (l : q.Lst) → items (q.list_add_node_to_tail x l) ≡ items l ++ x ∷ []
    pub items_pop_head :
        (l : q.Lst)
        → Option.map (λ (x, l'). (x, items l')) (q.list_pop_node_from_head l) ≡ uncons (items l)
    pub items_pop_tail :
        (l : q.Lst)
        → Option.map (λ (x, l'). (x, items l')) (q.list_pop_node_from_tail l) ≡ unsnoc (items l)

  -- What a pop at the head finds.
  pub pop_head-cases :
      {q : Queue A} (lawful : LawfulQueue q) (l : q.Lst)
      → ((q.list_pop_node_from_head l ≡ none) × (lawful.items l ≡ []))
        ⊎ ((x : A) × (rest : q.Lst) × (q.list_pop_node_from_head l ≡ some (x, rest))
            × (lawful.items l ≡ x ∷ lawful.items rest))
  pop_head-cases {q} lawful l = elim (Option-cases (q.list_pop_node_from_head l)) [
    | inl e ↦ inl (e, uncons_none (lawful.items l) (read e))
    | inr ((x, rest), e) ↦ inr (x, rest, e, uncons_some (lawful.items l) (read e))
  ]
    where
      read :
          {o : Option (A × q.Lst)}
          → q.list_pop_node_from_head l ≡ o
          → uncons (lawful.items l) ≡ Option.map (λ (x, l'). (x, lawful.items l')) o
      read e = sym (lawful.items_pop_head l) ∙ ap (Option.map _) e

      uncons_none : (xs : List A) → uncons xs ≡ none → xs ≡ []
      uncons_none [] e = refl
      uncons_none (x ∷ xs) e = cc

      uncons_some : {x : A} {ys : List A} (xs : List A) → uncons xs ≡ some (x, ys) → xs ≡ x ∷ ys
      uncons_some [] e = cc
      uncons_some (x ∷ xs) e = cc

  -- The sequence itself as a list.
  abbrev pub plain_queue : Queue A
  plain_queue = record {
    Lst = List A;
    list_create = [];
    list_length = length;
    list_add_node_to_head = ◌∷◌;
    list_add_node_to_tail = λ x l. l ++ x ∷ [];
    list_pop_node_from_head = uncons;
    list_pop_node_from_tail = unsnoc;
  }

  pub map_same : {B : Type 0} (o : Option (A × B)) → Option.map (λ (x, y). (x, y)) o ≡ o
  map_same none = refl
  map_same (some (x, y)) = refl

  abbrev pub plain_queue-LawfulQueue : LawfulQueue plain_queue
  plain_queue-LawfulQueue = record {
    items = λ l. l;
    items_create = refl;
    length_items = λ l. refl;
    items_add_head = λ x l. refl;
    items_add_tail = λ x l. refl;
    items_pop_head = λ l. map_same (uncons l);
    items_pop_tail = λ l. map_same (unsnoc l);
  }
