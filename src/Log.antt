-- ===== src/Log.antt =====
-- The log of cFrameworkToServer/utils/log.c: log_print puts a message into a list, and the thread of
-- log_thread_handle writes it to the file of the day. What localtime, fopen and vsprintf give are
-- arguments. `none` is undefined behaviour: a buffer that is too short, or a NULL file.
pub mod Open
pub mod Drain
pub mod Tests
use c_framework_to_server.Base.{
  ℕ, zero, suc, ◌+◌, ◌-◌, ◌<◌, Bool, true, false, not, ◌&&◌, ◌||◌, Option, none, some, List, [],
  ◌∷◌, ◌++◌, length, replicate, ltb, leb, ◌==◌, if◌then◌else◌,
}
use c_framework_to_server.Base.Int.{ℤ, pos, negsuc, ltb_ℤ, eqb_ℤ}
use c_framework_to_server.Memory.{◌>>=◌}
use c_framework_to_server.Text.{codes, decimal, strcpy}
use c_framework_to_server.Errors.{
  return_ok, err_config_file_open_fail, err_log_path_invalid, err_log_level_invalid,
  err_log_save_days_invalid, err_log_not_init,
}
use c_framework_to_server.Queue.{Queue}

-- What localtime gives, with the year and the month as they are printed.
pub record Time : Type 0 where
  pub year : ℕ
  pub mon : ℕ
  pub mday : ℕ
  pub hour : ℕ
  pub min : ℕ
  pub sec : ℕ

pub record LogMsg : Type 0 where
  pub level : ℤ
  pub data_body : List ℕ

-- The variables of log.c. `written` is what has been written, each text with its file.
pub record Logger (q : Queue LogMsg) : Type 0 where
  pub enable : Bool
  pub log_path : List ℕ
  pub log_name : List ℕ
  pub log_level : ℤ
  pub old_day : ℕ
  pub save_days : ℤ
  pub file_open : Bool
  pub log_list : q.Lst
  pub written : List (List ℕ × List ℕ)

-- printf("%0wd").
abbrev pub padded : (width n : ℕ) → List ℕ
padded width n = let digits = decimal (pos n) in replicate (width - length digits) b'0' ++ digits

-- "LOG%04d-%02d-%02d.log".
abbrev pub name_of_day : Time → List ℕ
name_of_day tm =
    codes "LOG"
    ++ padded 4 tm.year
    ++ codes "-"
    ++ padded 2 tm.mon
    ++ codes "-"
    ++ padded 2 tm.mday
    ++ codes ".log"

-- ga_str_log_level, behind a switch without a default.
abbrev pub level_text : ℤ → Option (List ℕ)
level_text (negsuc n) = none
level_text (pos n) =
    if n == 0
    then some (codes "ERROR")
    else if n == 1
    then some (codes "WARNING")
    else if n == 2
    then some (codes "INFO ")
    else if n == 3
    then some (codes "DEBUG")
    else none

-- What log_print prints before the text; `place` is "[file][function][line]".
abbrev pub message_head : Time → (level : ℤ) → (place : List ℕ) → Option (List ℕ)
message_head tm level place = level_text level >>= (λ name. some (
    codes "["
    ++ name
    ++ codes "]["
    ++ padded 4 tm.year
    ++ codes "-"
    ++ padded 2 tm.mon
    ++ codes "-"
    ++ padded 2 tm.mday
    ++ codes " "
    ++ padded 2 tm.hour
    ++ codes ":"
    ++ padded 2 tm.min
    ++ codes ":"
    ++ padded 2 tm.sec
    ++ codes "]"
    ++ (if ltb_ℤ level (pos 2) then place else [])))

-- Both buffers have 500 chars.
abbrev pub message : Time → (level : ℤ) → (place text : List ℕ) → Option LogMsg
message tm level place text = do
  head ← message_head tm level place
  head ← strcpy 500 head
  text ← strcpy 500 text
  body ← strcpy 500 (head ++ text ++ 10 ∷ [])
  some (record { level = level; data_body = body })

module _ {q : Queue LogMsg} where
  open q use {list_create, list_length, list_add_node_to_head, list_pop_node_from_tail}

  -- update_logname: whether the day has changed.
  abbrev pub day_changed : Time → Logger q → Bool
  day_changed tm st = not (tm.mday == st.old_day)

  -- log_print, for the text that vsprintf makes.
  unfoldable pub log_print :
      Time → (level : ℤ) → (place text : List ℕ) → Logger q → Option (ℤ × Logger q)
  log_print tm level place text st =
      if not st.enable
      then some (err_log_not_init, st)
      else message tm level place text
        >>= (λ msg. some (pos 0, record st { log_list = list_add_node_to_head msg st.log_list }))

  -- The change of the file in log_handle: fclose gets the old one, and fopen may fail.
  abbrev pub roll_file : Time → (opens : Bool) → Logger q → Option (Logger q)
  roll_file tm opens st =
      if not (day_changed tm st)
      then some st
      else if st.file_open
      then (do
        old_path ← strcpy 512 (st.log_path ++ st.log_name)
        path ← strcpy 512 (st.log_path ++ name_of_day tm)
        some (record st { log_name = name_of_day tm; old_day = tm.mday; file_open = opens }))
      else none

  -- log_handle.
  unfoldable pub log_handle : Time → (opens : Bool) → LogMsg → Logger q → Option (Logger q)
  log_handle tm opens msg st = roll_file tm opens st >>= (λ st'.
      if (day_changed tm st && not opens) || ltb_ℤ st.log_level msg.level
      then some st'
      else if st'.file_open
      then some (record st' { written = st'.written ++ (st'.log_name, msg.data_body) ∷ [] })
      else none)

  -- The inner loop of log_thread_handle: as many rounds as the list has elements.
  unfoldable pub drain : Time → (opens : Bool) (fuel : ℕ) → Logger q → Option (Logger q)
  unfolding log_handle
  drain tm opens zero st = some st
  drain tm opens (suc f) st = elim (list_pop_node_from_tail st.log_list) [
    | none ↦ some st
    | some (msg, rest) ↦
        log_handle tm opens msg (record st { log_list = rest }) >>= drain tm opens f
  ]

  abbrev pub log_thread : Time → (opens : Bool) → Logger q → Option (Logger q)
  log_thread tm opens st = drain tm opens (list_length st.log_list) st

  -- log_init. The test for a '/' at the end reads the NUL, so one is always added.
  unfoldable pub log_init :
      (log_root_path : Option (List ℕ)) (log_level log_save_days : ℤ)
      → Time
      → (opens : Bool) → Logger q
      → Option (ℤ × Logger q)
  log_init none level days tm opens st = some (err_log_path_invalid, st)
  log_init (some root) level days tm opens st = do
    path ← strcpy 512 (root ++ codes "/")
    let name = if day_changed tm st then name_of_day tm else st.log_name
    full ← strcpy 512 (path ++ name)
    let st1 : Logger q = record st {
      log_path = path;
      log_name = name;
      old_day = tm.mday;
      file_open = opens;
    }
    if not opens
        then some (err_config_file_open_fail, st1)
        else if ltb_ℤ level (pos 0) || ltb_ℤ (pos 3) level
        then some (err_log_level_invalid, st1)
        else if ltb_ℤ days (pos 0) || ltb_ℤ (pos 365) days
        then some (err_log_save_days_invalid, record st1 { log_level = level })
        else some (
          pos 0,
          record st1 {
            log_level = level;
            save_days = if eqb_ℤ days (pos 0) then st.save_days else days;
            log_list = list_create;
            enable = true;
          },
        )

  -- log_uninit, which returns 0.
  abbrev pub log_uninit : Logger q → Logger q
  log_uninit st = if st.enable then record st { file_open = false; enable = false } else st
