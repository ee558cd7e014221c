-- ===== src/Gateway.antt =====
-- The message gateway of cFrameworkToServer/src/service/massage_gateway.c, which sends nothing yet.
use c_framework_to_server.Base.{ℕ, ◌==◌, ◌||◌, if◌then◌else◌}
use c_framework_to_server.Base.Int.{ℤ, pos}
use c_framework_to_server.Errors.{err_undefined_msg_gateway}
use c_framework_to_server.Text.{codes}
use c_framework_to_server.Cache.{MsgCode}

abbrev pub msg_wangyi : ℕ
msg_wangyi = 1

abbrev pub msg_aliyun : ℕ
msg_aliyun = 2

abbrev pub msg_tengxun : ℕ
msg_tengxun = 3

-- msgWangyiCode: the key, the secret, the phone number and the template are not used.
abbrev pub msg_wangyi_code : (now code_bits : ℕ) → MsgCode → ℤ × MsgCode
msg_wangyi_code now code_bits return_code =
    let four = if code_bits == 4 then codes "8888" else return_code.code in
    let six = if code_bits == 6 then codes "888888" else four in
    (pos 0, record { code = six; fresh_time = 360; time_stamp = now })

abbrev pub msg_gateway_code : (type now code_bits : ℕ) → MsgCode → ℤ × MsgCode
msg_gateway_code type now code_bits return_code =
    if (type == msg_wangyi) || ((type == msg_aliyun) || (type == msg_tengxun))
    then msg_wangyi_code now code_bits return_code
    else (err_undefined_msg_gateway, return_code)
