-- ===== src/Log/Drain.antt =====
-- From log_print to the file, in cFrameworkToServer/utils/log.c.
use c_framework_to_server.Base.{
  ℕ, zero, suc, ◌≡◌, refl, sym, ap, ap₂, ◌∙◌, Bool, true, Option, none, some, List, [], ◌∷◌, ◌++◌,
  length, subst, Bool-cases, Option-cases, inl, inr, ◌⊎◌, arith, length-append, if◌then◌else◌,
}
use mathlib.Core.List.{append_assoc, append-nil}
use mathlib.Core.Option
use c_framework_to_server.Base.Int.{ℤ, pos, ltb_ℤ}
use c_framework_to_server.Queue.{Queue, LawfulQueue, unsnoc}
use c_framework_to_server.Log.Open.{log_init-opened}
use c_framework_to_server.Log.{
  log_init, Time, LogMsg, Logger, message, log_print, log_handle, drain, log_thread,
}

-- A list from its other end.
abbrev pub from_tail : List LogMsg → List LogMsg
from_tail [] = []
from_tail (x ∷ xs) = from_tail xs ++ x ∷ []

unsnoc-from_tail :
    (xs : List LogMsg)
    → ((unsnoc xs ≡ none) × (from_tail xs ≡ []))
      ⊎ ((x : LogMsg) × (ys : List LogMsg) × (unsnoc xs ≡ some (x, ys))
          × (from_tail xs ≡ x ∷ from_tail ys))
unsnoc-from_tail [] = inl (refl, refl)
unsnoc-from_tail (x ∷ xs) = elim (unsnoc-from_tail xs) [
  | inl (e, none_there) ↦ inr (x, [], rw e refl, ap (λ b. b ++ x ∷ []) none_there)
  | inr (y, ys, e, there) ↦ inr (y, x ∷ ys, rw e refl, ap (λ b. b ++ x ∷ []) there)
]

length-from_tail : (xs : List LogMsg) → length (from_tail xs) ≡ length xs
length-from_tail [] = refl
length-from_tail (x ∷ xs) =
    omega (arith, length-from_tail xs, length-append (from_tail xs) (x ∷ []))

-- The texts that the level lets through, each for the file.
abbrev pub let_through : (log_level : ℤ) (log_name : List ℕ) → List LogMsg → List (List ℕ × List ℕ)
let_through level name [] = []
let_through level name (msg ∷ msgs) =
    if ltb_ℤ level msg.level
    then let_through level name msgs
    else (name, msg.data_body) ∷ let_through level name msgs

let_through-cons :
    (level : ℤ) (name : List ℕ) (m : LogMsg) (msgs : List LogMsg)
    → let_through level name (m ∷ []) ++ let_through level name msgs
      ≡ let_through level name (m ∷ msgs)
let_through-cons level name m msgs = ground arith

module _ {q : Queue LogMsg} (lawful : LawfulQueue q) where
  open lawful use {items, items_create, items_add_head, items_pop_tail, length_items}

  -- The messages that wait, the oldest first.
  abbrev pub pending : Logger q → List LogMsg
  pending st = from_tail (items st.log_list)

  pop_tail-cases :
      (l : q.Lst)
      → ((q.list_pop_node_from_tail l ≡ none) × (from_tail (items l) ≡ []))
        ⊎ ((x : LogMsg) × (rest : q.Lst) × (q.list_pop_node_from_tail l ≡ some (x, rest))
            × (from_tail (items l) ≡ x ∷ from_tail (items rest)))
  pop_tail-cases l = elim (Option-cases (q.list_pop_node_from_tail l)) [
    | inl e ↦ elim (unsnoc-from_tail (items l)) [
      | inl (e', there) ↦ inl (e, there)
      | inr (x, ys, e', there) ↦
          let law : ◌≡◌ {A = Option (LogMsg × List LogMsg)} none (some (x, ys)) =
            sym (ap (Option.map _) e) ∙ items_pop_tail l ∙ e' in
          absurd (ground arith)
    ]
    | inr ((x, rest), e) ↦ elim (unsnoc-from_tail (items l)) [
      | inl (e', there) ↦
          let law : ◌≡◌ {A = Option (LogMsg × List LogMsg)} (some (x, items rest)) none =
            sym (ap (Option.map _) e) ∙ items_pop_tail l ∙ e' in
          absurd (ground arith)
      | inr (y, ys, e', there) ↦
          let law : ◌≡◌ {A = Option (LogMsg × List LogMsg)} (some (x, items rest)) (some (y, ys)) =
            sym (ap (Option.map _) e) ∙ items_pop_tail l ∙ e' in
          let first : y ≡ x = cc in
          let left : ys ≡ items rest = cc in
          inr (x, rest, e, there ∙ ap₂ (λ m l'. m ∷ from_tail l') first left)
    ]
  ]

  -- A message on a day that has not changed.
  same_day-log_handle :
      (tm : Time) (opens : Bool) (msg : LogMsg) (st : Logger q)
      → tm.mday ≡ st.old_day
      → st.file_open ≡ true
      → log_handle tm opens msg st
        ≡ some
            (record st { written = st.written ++ let_through st.log_level st.log_name (msg ∷ []) })
  unfolding log_handle
  same_day-log_handle tm opens msg st day open_file =
      elim (Bool-cases (ltb_ℤ st.log_level msg.level)) [
        | inl over ↦ ground (arith, append-nil st.written)
        | inr fits ↦ ground arith
      ]

  drain-pending :
      (tm : Time) (opens : Bool) (f : ℕ) (st : Logger q) (msgs : List LogMsg)
      → pending st ≡ msgs
      → f ≡ length msgs
      → tm.mday ≡ st.old_day
      → st.file_open ≡ true
      → (st' : Logger q) × (drain tm opens f st ≡ some st')
        × (pending st' ≡ [])
        × (st'.written ≡ st.written ++ let_through st.log_level st.log_name msgs)
  unfolding drain
  drain-pending tm opens zero st [] at hf day open_file =
      (st, refl, at, sym (append-nil st.written))
  drain-pending tm opens zero st (m ∷ msgs) at hf day open_file = absurd (omega arith)
  drain-pending tm opens (suc f) st [] at hf day open_file = absurd (omega arith)
  drain-pending tm opens (suc f) st (m ∷ msgs) at hf day open_file =
      elim (pop_tail-cases st.log_list) [
        | inl (e, none_there) ↦
            let clash : [] ≡ m ∷ msgs = sym none_there ∙ at in absurd (ground arith)
        | inr (x, rest, e, there) ↦
            let both : x ∷ from_tail (items rest) ≡ m ∷ msgs = sym there ∙ at in
            let it : x ≡ m = cc in
            let left : from_tail (items rest) ≡ msgs = cc in
            let st1 : Logger q = record st { log_list = rest } in
            let st2 : Logger q = record st1 {
              written = st.written ++ let_through st.log_level st.log_name (m ∷ []);
            } in
            let handled : log_handle tm opens x st1 ≡ some st2 =
              ap (λ y. log_handle tm opens y st1) it
              ∙ same_day-log_handle tm opens m st1 day open_file in
            let (st', run, none_left, all) =
              drain-pending tm opens f st2 msgs left (omega arith) day open_file in
            (
              st',
              rw (drain, e, handled) run,
              none_left,
              all
                  ∙ append_assoc st.written (let_through st.log_level st.log_name (m ∷ []))
                      (let_through st.log_level st.log_name msgs)
                  ∙ ap (◌++◌ st.written) (let_through-cons st.log_level st.log_name m msgs),
            )
      ]

  -- One call of log_print, as its arguments.
  abbrev pub PrintCall : Type 0
  PrintCall = Time × ℤ × List ℕ × List ℕ

  -- A run of calls of log_print that all have room for their texts.
  pub data Prints : List LogMsg → Logger q → Logger q → Type 0 where
    none_yet : {st : Logger q} → Prints [] st st
    then_print :
        {msgs : List LogMsg} {st st1 st2 : Logger q} (tm : Time) (level : ℤ) (place text : List ℕ)
        (msg : LogMsg)
        → Prints msgs st st1
        → message tm level place text ≡ some msg
        → log_print tm level place text st1 ≡ some (pos 0, st2)
        → Prints (msgs ++ msg ∷ []) st st2

  log_print-some :
      (tm : Time) (level : ℤ) (place text : List ℕ) (msg : LogMsg) (st : Logger q)
      → st.enable ≡ true
      → message tm level place text ≡ some msg
      → log_print tm level place text st
        ≡ some (pos 0, record st { log_list = q.list_add_node_to_head msg st.log_list })
  unfolding log_print
  log_print-some tm level place text msg st on made = rw (on, made) refl

  Prints-pending :
      {msgs : List LogMsg} {st st' : Logger q}
      → Prints msgs st st'
      → st.enable ≡ true
      → (pending st' ≡ pending st ++ msgs) × (st' ≡ record st { log_list = st'.log_list })
  Prints-pending none_yet on = (sym (append-nil _), refl)
  Prints-pending {st = st} {st' = st'}
        (then_print {msgs = msgs} {st1 = st1} tm level place text msg r made run) on =
      let (waiting, same) = Prints-pending r on in
      let on1 : st1.enable ≡ true = ap (λ s. s.enable) same ∙ on in
      let st2 : Logger q = record st1 { log_list = q.list_add_node_to_head msg st1.log_list } in
      let printed : log_print tm level place text st1 ≡ some (pos 0, st2) =
        log_print-some tm level place text msg st1 on1 made in
      let it : st2 ≡ st' = cc in
      let waiting2 : pending st2 ≡ pending st ++ (msgs ++ msg ∷ []) =
        ap from_tail (items_add_head msg st1.log_list)
        ∙ ap (λ l. l ++ msg ∷ []) waiting
        ∙ append_assoc (pending st) msgs (msg ∷ []) in
      subst
        (λ s.
          (pending s ≡ pending st ++ (msgs ++ msg ∷ []))
          × (s ≡ record st { log_list = s.log_list }))
        it
        (
          waiting2,
          ap {A = Logger q} {B = Logger q} (λ s. record s { log_list = st2.log_list }) same,
        )

  -- When log_init has returned 0, calls of log_print have put their messages into the list and the
  -- thread then runs on the same day: it returns, nothing is left in the list, and what has been
  -- written has grown by exactly the messages whose level is not over the one that log_init was given,
  -- in the order of the calls and in the file that log_init has named.
  pub log_thread-log_print :
      {msgs : List LogMsg} {st st1 : Logger q} (root : List ℕ) (level days : ℤ) (tm : Time)
      (st0 : Logger q) (opens opens' : Bool)
      → log_init (some root) level days tm opens st0 ≡ some (pos 0, st)
      → Prints msgs st st1
      → (st2 : Logger q) × (log_thread tm opens' st1 ≡ some st2)
        × (pending st2 ≡ [])
        × (st2.written ≡ st0.written ++ let_through level st.log_name msgs)
  log_thread-log_print {msgs = msgs} {st = st} {st1 = st1} root level days tm st0 opens opens' start
        r =
      let (on, open_file, day, empty, level_set, kept) =
        log_init-opened root level days tm opens st0 st start in
      let (waiting, same) = Prints-pending r on in
      let idle : pending st ≡ [] =
        ap (λ l. from_tail (items l)) empty ∙ ap from_tail items_create in
      let all : pending st1 ≡ msgs = waiting ∙ ap (λ l. l ++ msgs) idle in
      let fuel : q.list_length st1.log_list ≡ length msgs =
        length_items st1.log_list ∙ sym (length-from_tail (items st1.log_list)) ∙ ap length all in
      let (st2, run, none_left, written) =
        drain-pending tm opens' (q.list_length st1.log_list) st1 msgs all fuel
          (sym (ap (λ s. s.old_day) same ∙ day)) (ap (λ s. s.file_open) same ∙ open_file) in
      (
        st2,
        run,
        none_left,
        written
            ∙ ap (λ s. s.written ++ let_through s.log_level s.log_name msgs) same
            ∙ ap₂ (λ before l. before ++ let_through l st.log_name msgs) kept level_set,
      )
