-- ===== src/Errors.antt =====
-- The codes of cFrameworkToServer/utils/error.h that the other modules return, and the message
-- table of cFrameworkToServer/utils/error.c.
use c_framework_to_server.Base.{ℕ, ◌&&◌, List, [], ◌∷◌, if◌then◌else◌}
use c_framework_to_server.Base.Int.{ℤ, pos, neg, eqb_ℤ, ltb_ℤ}
use c_framework_to_server.Text.{codes}

abbrev pub return_ok : ℤ
return_ok = pos 0

abbrev pub err_internal_error_start : ℤ
err_internal_error_start = neg 1

abbrev pub err_internal_error_end : ℤ
err_internal_error_end = neg 200

abbrev pub err_database_connect_fail : ℤ
err_database_connect_fail = neg 3

abbrev pub err_memory_pool_malloc_fail : ℤ
err_memory_pool_malloc_fail = neg 4

abbrev pub err_memory_pool_not_init : ℤ
err_memory_pool_not_init = neg 5

abbrev pub err_config_file_open_fail : ℤ
err_config_file_open_fail = neg 2

abbrev pub err_log_path_invalid : ℤ
err_log_path_invalid = neg 7

abbrev pub err_log_level_invalid : ℤ
err_log_level_invalid = neg 8

abbrev pub err_log_save_days_invalid : ℤ
err_log_save_days_invalid = neg 9

abbrev pub err_log_not_init : ℤ
err_log_not_init = neg 10

abbrev pub err_json_parse_fail : ℤ
err_json_parse_fail = neg 12

abbrev pub err_undefined_request_route : ℤ
err_undefined_request_route = neg 14

abbrev pub err_undefined_request_type : ℤ
err_undefined_request_type = neg 15

abbrev pub err_undefined_msg_gateway : ℤ
err_undefined_msg_gateway = neg 17

abbrev pub err_undefined_cache : ℤ
err_undefined_cache = neg 18

abbrev pub err_not_find_cache : ℤ
err_not_find_cache = neg 19

abbrev pub err_mysql_query_fail : ℤ
err_mysql_query_fail = neg 101

abbrev pub err_user_regist_duplicate : ℤ
err_user_regist_duplicate = neg 200

abbrev pub err_user_regist_insert_fail : ℤ
err_user_regist_insert_fail = neg 102

abbrev pub err_user_ergist_query_fail : ℤ
err_user_ergist_query_fail = neg 103

abbrev pub err_user_delete_fail : ℤ
err_user_delete_fail = neg 104

abbrev pub err_user_modify_fail : ℤ
err_user_modify_fail = neg 105

abbrev pub err_notice_insert_duplicate : ℤ
err_notice_insert_duplicate = neg 107

abbrev pub err_notice_insert_fail : ℤ
err_notice_insert_fail = neg 108

abbrev pub err_notice_query_fail : ℤ
err_notice_query_fail = neg 109

abbrev pub err_notice_modify_fail : ℤ
err_notice_modify_fail = neg 110

abbrev pub err_notice_delete_fail : ℤ
err_notice_delete_fail = neg 111

abbrev pub err_app_update_insert_duplicate : ℤ
err_app_update_insert_duplicate = neg 107

abbrev pub err_app_update_insert_fail : ℤ
err_app_update_insert_fail = neg 108

abbrev pub err_app_update_query_fail : ℤ
err_app_update_query_fail = neg 109

abbrev pub err_app_update_modify_fail : ℤ
err_app_update_modify_fail = neg 110

abbrev pub err_app_update_delete_fail : ℤ
err_app_update_delete_fail = neg 112

abbrev pub err_app_version_not_found_in_cache : ℤ
err_app_version_not_found_in_cache = neg 111

abbrev pub err_phone_number_wrong : ℤ
err_phone_number_wrong = neg 201

abbrev pub err_phone_number_duplicate : ℤ
err_phone_number_duplicate = neg 202

abbrev pub err_msg_code_wrong : ℤ
err_msg_code_wrong = neg 203

abbrev pub err_input_argument_wrong : ℤ
err_input_argument_wrong = neg 204

abbrev pub err_phone_number_not_regist : ℤ
err_phone_number_not_regist = neg 205

abbrev pub err_token_out_of_date : ℤ
err_token_out_of_date = neg 206

abbrev pub err_not_login_yet : ℤ
err_not_login_yet = neg 207

abbrev pub err_no_permission : ℤ
err_no_permission = neg 208

abbrev pub err_account_not_regist : ℤ
err_account_not_regist = neg 209

abbrev pub err_appversion_not_update : ℤ
err_appversion_not_update = neg 210

abbrev pub err_msg_code_out_of_date : ℤ
err_msg_code_out_of_date = neg 211

abbrev pub err_account_duplicate : ℤ
err_account_duplicate = neg 212

abbrev pub err_not_notice_yet : ℤ
err_not_notice_yet = neg 213

abbrev pub ErrList : Type 0
ErrList = List (ℤ × List ℕ)

abbrev pub errlist : ErrList
errlist =
    (return_ok, codes "ok")
    ∷ (err_phone_number_wrong, codes "wrong phone number format")
    ∷ (err_phone_number_duplicate, codes "phone number  duplicate")
    ∷ (err_msg_code_wrong, codes "message verification fail")
    ∷ (err_input_argument_wrong, codes "input argument wrong")
    ∷ (err_phone_number_not_regist, codes "phone number not regist yet")
    ∷ (err_token_out_of_date, codes "token out of date")
    ∷ (err_not_login_yet, codes "user not login yet")
    ∷ (err_no_permission, codes "user not permission to delete operation")
    ∷ (err_account_not_regist, codes "account not regist yet")
    ∷ (err_appversion_not_update, codes "app version not update yet")
    ∷ (err_msg_code_out_of_date, codes "message code out of date")
    ∷ (err_account_duplicate, codes "account duplicate")
    ∷ (err_not_notice_yet, codes "not notice yet")
    ∷ []

abbrev pub unknown_err_code : List ℕ
unknown_err_code = codes "unknown error code"

abbrev pub internal_error : List ℕ
internal_error = codes "server internal errpr ,plese notify  administrator!"

-- The loop of gerErrMsg.
find_msg : ErrList → ℤ → List ℕ
find_msg [] code = unknown_err_code
find_msg ((errcode, errmsg) ∷ rest) code = if eqb_ℤ errcode code then errmsg else find_msg rest code

unfoldable pub ger_err_msg : ℤ → List ℕ
unfolding find_msg
ger_err_msg code =
    if ltb_ℤ code err_internal_error_start && ltb_ℤ err_internal_error_end code
    then internal_error
    else find_msg errlist code
