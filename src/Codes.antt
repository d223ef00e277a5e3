-- ===== src/Codes.antt =====
-- HTTP statuses and application error codes with their texts (src/SERVER/zt_http.h,
-- src/SERVER/zt_util.c). Return codes and buffer sizes are in the children.
pub mod Rc
pub mod Size
use zam_tok.Prelude.{ℕ, Bytes, codes, ◌==◌, if◌then◌else◌}

-- `zt_err_code_t` without its count
pub data ErrCode : Type 0 where
  success fail method_not_allowed missing_user_id invalid_params user_not_found : ErrCode
  room_not_found wrong_password user_already_exists mdn_already_exists : ErrCode
  room_already_exists not_friend server_error : ErrCode

-- `zt_err_code_str`
unfoldable pub zt_err_code_str : ErrCode → Bytes
zt_err_code_str success = codes "SUCCESS"
zt_err_code_str fail = codes "FAIL"
zt_err_code_str method_not_allowed = codes "METHOD_NOT_ALLOWED"
zt_err_code_str missing_user_id = codes "MISSING_USER_ID"
zt_err_code_str invalid_params = codes "INVALID_PARAMS"
zt_err_code_str user_not_found = codes "USER_NOT_FOUND"
zt_err_code_str room_not_found = codes "ROOM_NOT_FOUND"
zt_err_code_str wrong_password = codes "WRONG_PASSWORD"
zt_err_code_str user_already_exists = codes "USER_ALREADY_EXISTS"
zt_err_code_str mdn_already_exists = codes "MDN_ALREADY_EXISTS"
zt_err_code_str room_already_exists = codes "ROOM_ALREADY_EXISTS"
zt_err_code_str not_friend = codes "NOT_FRIEND"
zt_err_code_str server_error = codes "SERVER_ERROR"

-- `zt_err_default_msg`
unfoldable pub zt_err_default_msg : ErrCode → Bytes
zt_err_default_msg success = codes "ok"
zt_err_default_msg fail = codes "failed"
zt_err_default_msg method_not_allowed = codes "method not allowed"
zt_err_default_msg missing_user_id = codes "user_id is required"
zt_err_default_msg invalid_params = codes "invalid parameters"
zt_err_default_msg user_not_found = codes "user not found"
zt_err_default_msg room_not_found = codes "room not found"
zt_err_default_msg wrong_password = codes "wrong password"
zt_err_default_msg user_already_exists = codes "user already exists"
zt_err_default_msg mdn_already_exists = codes "mdn already exists"
zt_err_default_msg room_already_exists = codes "room already exists"
zt_err_default_msg not_friend = codes "member is not a friend"
zt_err_default_msg server_error = codes "server error"

-- `zt_http_status_to_reason`
unfoldable pub zt_http_status_to_reason : ℕ → Bytes
zt_http_status_to_reason s =
    if s == 200
    then codes "OK"
    else if s == 400
    then codes "Bad Request"
    else if s == 401
    then codes "Unauthorized"
    else if s == 403
    then codes "Forbidden"
    else if s == 404
    then codes "Not Found"
    else if s == 405
    then codes "Method Not Allowed"
    else if s == 409
    then codes "Conflict"
    else if s == 500
    then codes "Internal Server Error"
    else if s == 501
    then codes "Not Implemented"
    else if s == 502
    then codes "Bad Gateway"
    else if s == 503
    then codes "Service Unavailable"
    else if s == 504
    then codes "Gateway Timeout"
    else codes "Unknown"
