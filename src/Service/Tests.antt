-- ===== src/Service/Tests.antt =====
-- The handlers on a small server: a database that answers every query with no rows and every
-- statement with one row, and a hash table that is a list.
use c_framework_to_server.Base.{
  ℕ, true, if◌then◌else◌, Option, none, some, List, [], ◌∷◌, ◌≡◌, refl, sym, ap, ◌∙◌, Bool-cases,
  arith, inl, inr, ◌⊎◌, length,
}
use c_framework_to_server.Base.Int.{ℤ, pos, ltb_ℤ}
use c_framework_to_server.User.Store.{user_query_return_item_num}
use c_framework_to_server.Text.{atoi, atoi_value, atoi_digits, atoi_sign, codes, str_eq}
use c_framework_to_server.Errors.{err_not_login_yet, err_msg_code_out_of_date}
use c_framework_to_server.Sql.{Mysql, query_db, get_where_or_set_string}
use c_framework_to_server.Sql.Statements.{select_items, count_items}
use c_framework_to_server.Json.{CJson, make_error_json}
use c_framework_to_server.Cache.{Object, user, msg_code, MsgCode, create_cache}
use c_framework_to_server.Cache.Laws.{list_dict, list_dict-LawfulDict, find, str_eq-eq}
use c_framework_to_server.User.{User, empty_user}
use c_framework_to_server.Notice.{empty_notice}
use c_framework_to_server.Service.{Platform, World, check_token, error_json}
use c_framework_to_server.Service.Sessions.{
  user_logout, user_status_run, user_delete_run, user_modify_run, ok_json, log_out,
}
use c_framework_to_server.Service.Verify.{verify_before_run, verify_after_run}
use c_framework_to_server.Service.Feed.{notice_get_run, load_cache_necessary}
use c_framework_to_server.Service.CacheInvariant.{IsValid}
use c_framework_to_server.Service.Reach.{Reach, started, Reach-IsValid}
use c_framework_to_server.Service.Guards.{Checked, cached, check_token-Checked}
use c_framework_to_server.Service.Guards.Logout.{replied_with, user_logout-user_status}
use c_framework_to_server.Service.Guards.Deletion.{NoAdmin, user_delete-NoAdmin}
use c_framework_to_server.Service.Guards.Codes.{
  common, HasCode, verify_after-HasCode, Asked, not_yet, then_before, at_time,
  verify_before-out_of_date,
}
use c_framework_to_server.Service.Guards.Notices.{notice_get-verify_before}
use c_framework_to_server.Service.Guards.Update.{Updated, user_modify-Updated}

-- The session is the statements that were sent.
abbrev pub log_mysql : Mysql
log_mysql = record {
  Session = List (List ℕ);
  mysql_query = λ sql s. (pos 0, sql ∷ s);
  mysql_affected_rows = λ s. pos 1;
  mysql_store_result = λ s. (some [], s);
}

abbrev pub no_json : CJson
no_json = record {
  Json = Unit;
  parse = λ text. none;
  get_object_item = λ json name. none;
  print = λ members. [];
}

abbrev pub small : Platform
small = record {
  mysql = log_mysql;
  c_json = no_json;
  dict = list_dict;
  cbc = λ key iv block. block;
  stack = [];
  now = 1000;
  token_fresh_time = 1;
}

abbrev jo : User
jo = record empty_user {
  id = pos 7;
  account = codes "123456789";
  token = codes "t";
  acc_type = codes "n";
  token_fresh_time_stamp = 900;
}

abbrev old_code : MsgCode
old_code = record { code = codes "888888"; fresh_time = 360; time_stamp = 1 }

abbrev pub start : World small
start = record {
  caches = create_cache list_dict;
  session = [];
  random = record { x0 = 0; x1 = 0; x2 = 0; a0 = 0; a1 = 0; a2 = 0; c = 0 };
  buffer = [];
  buffer_used = 0;
}

-- jo is logged in, and a code for a phone is out of date.
abbrev busy : World small
busy = record start {
  caches = record {
    token = (codes "t", user jo) ∷ [];
    nickname = [];
    common = (codes "13800000000", msg_code old_code) ∷ [];
  };
}

-- The state that regist_service leaves: the table of versions is empty.
abbrev registered : World small
registered = record start {
  session = codes "select * from appver where id=(select max(id) from appver);" ∷ [];
}

Reach-registered : Reach small registered
unfolding load_cache_necessary select_items query_db
Reach-registered = started start refl

Reach-IsValid_example : IsValid small registered
Reach-IsValid_example = Reach-IsValid small list_dict-LawfulDict registered Reach-registered

busy-IsValid : IsValid small busy
unfolding find
busy-IsValid = record {
  tokens = λ k. elim (Bool-cases (str_eq k (codes "t"))) [
    | inl e ↦ rw (e) (sym (str_eq-eq k (codes "t") e))
    | inr e ↦ rw (e) tt
  ];
  commons = λ k. elim (Bool-cases (str_eq k (codes "13800000000"))) [
    | inl e ↦ rw (e) (ap length (str_eq-eq k (codes "13800000000") e))
    | inr e ↦ rw (e) tt
  ];
}

jo_found : cached small busy (codes "t") ≡ some (user jo)
unfolding find
jo_found = refl

old_code_found : common small busy (codes "13800000000") ≡ some (msg_code old_code)
unfolding find
old_code_found = refl

notice_absent : common small busy (codes "n_123456789") ≡ none
unfolding find
notice_absent = refl

abbrev type_of : Option Object → List ℕ
type_of (some (user u)) = u.acc_type
type_of _ = []

no_admin : NoAdmin small list_dict-LawfulDict busy (codes "t")
no_admin u e t = ap (λ o. str_eq (type_of o) (codes "a")) (sym e ∙ jo_found)

check_token-Checked_example :
    Checked small
      (codes "t")
      (log_out small (codes "t"))
      busy
      (check_token small (codes "t") (log_out small (codes "t")) busy)
check_token-Checked_example =
    check_token-Checked small list_dict-LawfulDict (codes "t") (log_out small (codes "t")) busy
      busy-IsValid

-- A JSON library that reads one request: the token "t".
abbrev token_json : CJson
token_json = record no_json {
  parse = λ text. some tt;
  get_object_item = λ json name.
      if str_eq name (codes "token")
      then some (record { valuestring = some (codes "t"); valueint = pos 0 })
      else none;
}

abbrev parsing : Platform
parsing = record small { c_json = token_json }

parsing-IsValid : IsValid parsing busy
parsing-IsValid = record { tokens = busy-IsValid.tokens; commons = busy-IsValid.commons }

abbrev logout_request : User
logout_request = record empty_user { token = codes "t" }

user_logout-user_status_example :
    (code : ℤ) × ((after : World parsing) × ((user_logout parsing busy
          ≡ some (replied_with parsing (error_json parsing code) after))
        × (user_status_run parsing logout_request
              (replied_with parsing (error_json parsing code) after)
            ≡ some (
              error_json parsing err_not_login_yet,
              replied_with parsing (error_json parsing code) after,
            ))))
unfolding make_error_json
user_logout-user_status_example =
    user_logout-user_status parsing list_dict-LawfulDict logout_request busy parsing-IsValid refl
      (λ code. omega arith)

user_delete-NoAdmin_example :
    (code : ℤ) × (ltb_ℤ code (pos 0) ≡ true)
    × ((after : World small) × ((user_delete_run small jo busy
            ≡ some (error_json small code, after))
          × (after.session ≡ [])))
user_delete-NoAdmin_example =
    user_delete-NoAdmin small list_dict-LawfulDict jo busy busy-IsValid no_admin

abbrev phone_request : User
phone_request = record empty_user { phone = codes "13800000000"; password = codes "888888" }

verify_after-HasCode_example :
    HasCode small phone_request busy
    ⊎ ((code : ℤ) × (ltb_ℤ code (pos 0) ≡ true)
        × (verify_after_run small phone_request busy ≡ some (error_json small code, busy)))
verify_after-HasCode_example = verify_after-HasCode small phone_request busy busy-IsValid

-- A database in which no user is found.
abbrev counting : Platform
counting = record small {
  mysql = record log_mysql { mysql_store_result = λ s. (some ((some (codes "0") ∷ []) ∷ []), s) };
}

abbrev before_request : User
before_request = record empty_user { cmd = codes "regist"; phone = codes "13800000000" }

abbrev state_of : Option (List ℕ × World counting) → World counting
state_of none = busy
state_of (some (text, s)) = s

abbrev busy_after : World counting
busy_after = state_of (verify_before_run counting before_request busy)

asked_once : Asked counting list_dict-LawfulDict busy busy_after
unfolding verify_before_run find query_db atoi atoi_value atoi_digits atoi_sign count_items
    get_where_or_set_string
asked_once = then_before 1000 before_request (ok_json counting) not_yet refl

verify_before-out_of_date_example :
    (common counting busy_after (codes "13800000000") ≡ some (msg_code old_code))
    × (verify_after_run (at_time counting 1002) phone_request busy_after
        ≡ some (error_json counting err_msg_code_out_of_date, busy_after))
verify_before-out_of_date_example =
    verify_before-out_of_date counting list_dict-LawfulDict phone_request old_code 1002 asked_once
      refl refl old_code_found refl

abbrev odd_request : User
odd_request = record empty_user { cmd = codes "regist"; phone = codes "n_123456789" }

abbrev count_of : Option (ℤ × List (List ℕ)) → List (List ℕ)
count_of none = []
count_of (some (ret, db)) = db

abbrev odd_count : Option (ℤ × List (List ℕ))
odd_count =
    user_query_return_item_num counting.mysql (record odd_request { account = odd_request.phone })
      []

no_user : odd_count ≡ some (pos 0, count_of odd_count)
unfolding find query_db atoi atoi_value atoi_digits atoi_sign count_items get_where_or_set_string
no_user = refl

notice_get-verify_before_example :
    (after : World counting) × ((verify_before_run counting odd_request busy
        ≡ some (ok_json counting, after))
      × (notice_get_run counting (record empty_notice { token = codes "t" }) after ≡ none))
notice_get-verify_before_example =
    notice_get-verify_before counting list_dict-LawfulDict odd_request
      (record empty_notice { token = codes "t" }) jo busy (count_of odd_count) refl refl refl
      no_user jo_found notice_absent

abbrev new_phone : User
new_phone = record empty_user { token = codes "t"; phone = codes "13900000000" }

user_modify-Updated_example : Updated small new_phone jo busy (user_modify_run small new_phone busy)
user_modify-Updated_example =
    user_modify-Updated small list_dict-LawfulDict new_phone jo busy (omega arith) jo_found refl
