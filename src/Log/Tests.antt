-- ===== src/Log/Tests.antt =====
-- The log of cFrameworkToServer/utils/log.c on a small run.
use c_framework_to_server.Base.{true, false, ◌≡◌, refl, some, [], ◌∷◌, ◌++◌}
use c_framework_to_server.Base.Int.{pos}
use c_framework_to_server.Text.{codes, decimal}
use c_framework_to_server.Queue.{plain_queue, plain_queue-LawfulQueue}
use c_framework_to_server.Log.{Time, LogMsg, Logger, log_init, log_print, log_thread}
use c_framework_to_server.Log.Drain.{pending, Prints, none_yet, then_print, log_thread-log_print}

abbrev pub Plain : Type 0
Plain = Logger (plain_queue {A = LogMsg})

abbrev pub morning : Time
morning = record { year = 2024; mon = 5; mday = 7; hour = 9; min = 30; sec = 1 }

abbrev pub at_start : Plain
at_start = record {
  enable = false;
  log_path = [];
  log_name = [];
  log_level = pos 3;
  old_day = 0;
  save_days = pos 30;
  file_open = false;
  log_list = [];
  written = [];
}

-- Warnings and errors only.
abbrev opened : Plain
opened = record at_start {
  enable = true;
  log_path = codes "/var/log/";
  log_name = codes "LOG2024-05-07.log";
  log_level = pos 1;
  old_day = 7;
  file_open = true;
}

opens_the_day :
    log_init (some (codes "/var/log")) (pos 1) (pos 0) morning true at_start ≡ some (pos 0, opened)
unfolding log_init decimal
opens_the_day = refl

abbrev info_msg : LogMsg
info_msg = record { level = pos 2; data_body = codes "[INFO ][2024-05-07 09:30:01]up" ++ 10 ∷ [] }

abbrev error_msg : LogMsg
error_msg = record {
  level = pos 0;
  data_body = codes "[ERROR][2024-05-07 09:30:01][log.c][log_print][160]down" ++ 10 ∷ [];
}

abbrev after_prints : Plain
after_prints = record opened { log_list = error_msg ∷ info_msg ∷ [] }

abbrev prints : Prints plain_queue-LawfulQueue (info_msg ∷ error_msg ∷ []) opened after_prints
unfolding decimal log_print
prints =
    then_print {msgs = info_msg ∷ []} {st1 = record opened { log_list = info_msg ∷ [] }} morning
      (pos 0) (codes "[log.c][log_print][160]") (codes "down") error_msg
      (then_print {msgs = []} {st1 = opened} morning (pos 2) [] (codes "up") info_msg none_yet refl
        refl)
      refl refl

log_thread-log_print_example :
    (st2 : Plain) × (log_thread morning true after_prints ≡ some st2)
    × (pending plain_queue-LawfulQueue st2 ≡ [])
    × (st2.written ≡ (codes "LOG2024-05-07.log", error_msg.data_body) ∷ [])
log_thread-log_print_example =
    log_thread-log_print plain_queue-LawfulQueue (codes "/var/log") (pos 1) (pos 0) morning at_start
      true true opens_the_day prints
