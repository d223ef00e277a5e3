-- ===== src/Tests.antt =====
-- The theorems at concrete inputs, and runs of the definitions.
mod Rooms
mod Lists
mod Server
mod Terminal
mod Starting
mod Typed
mod Host
mod Queues
use zam_tok.Prelude.{
  ◌<◌, pos, negsuc, true, false, [], ◌∷◌, none, some, codes, ◌≡◌, refl, arith, if◌then◌else◌,
  length,
}
use zam_tok.CString.{str_eq, strn_eq, decimal}
use zam_tok.Codes.{ErrCode}
use zam_tok.Codes.Size
use zam_tok.Util.{
  Req, Res, result_fail, body_text, generate_response_body, zero_response, http_bind_json_fields,
}
use zam_tok.Util.Response.{BodyResult, generate_response_body_lem}
use zam_tok.Codes.Rc
use zam_tok.Hdl.Send.{wire_text, hdl_send_http_json}
use zam_tok.Util.{msg_copy_json_string_field}
use zam_tok.Util.Json.{copy_field}
use zam_tok.Http.Body.{http_get_body-http_request, http_get_body-wire_text}
use zam_tok.Http.Respond.{respond}
use zam_tok.Http.Respond.Sent.{Answers, result_text, respond-Answers, hdl_send_http_json_lem}
use zam_tok.Chat.{login_json, create_room_json, http_request, chat_join, chat_login}
use zam_tok.Chat.Fields.{bind-login_json, bind-create_room_json, create_body}
use zam_tok.Chat.Requests.{
  request, join_steps-request, login_steps-request, chat_join-request, chat_login-request,
}
use zam_tok.Redis.Users.Replies.{saved_hget, saved_store, redis_user_get_lem, got_user, stored}
use zam_tok.Redis.Users.{redis_user_get}
use zam_tok.Redis.Keys.{zero_user}
use zam_tok.Redis.Laws.{hash}
use zam_tok.Step.{ok, fail}
use zam_tok.World.{World}
use zam_tok.Redis.Keys.{User, user_key, mdn_key}
use zam_tok.Redis.Laws.{is_absent}
use zam_tok.Redis.Laws.Model.{platform, empty_world, model_laws}
use zam_tok.Http.Helpers.{http_get_body}
use zam_tok.Http.Answers.{AnswersOnce, handlers-AnswersOnce}
use zam_tok.Http.Users.{
  join_fields, login_fields, is_method, join_steps, login_steps, http_join, http_login, join_data,
  join_user, login_user,
}
use zam_tok.Http.Users.Accounts.{
  IsSignup, join_outcome, join_user_lem, login_result, login_user_lem, joined-login,
}
use zam_tok.Http.Rooms.{
  create_fields, create_room_steps, search_room_steps, join_room_steps, invite_room_steps,
  http_create_room, http_search_room, http_join_room, http_invite_room,
}
use zam_tok.Chat.{join_json}
use zam_tok.Chat.Fields.{IsReadable, join_body, login_body, values, bound, bind-join_json}
use zam_tok.Session.Wire.{nul_free-NoNul}
use zam_tok.Session.Served.{AreStrings, SignsInServed, signs_in_served}
use zam_tok.Session.{SignsIn, signs_in}

abbrev some_response : Res
some_response = record zero_response {
  i_status_code = 404;
  str_reason = codes "Not Found";
  t_body = record {
    b_success = false;
    str_code = codes "ROOM_NOT_FOUND";
    str_message = codes "room not found";
    str_data = codes "null";
  };
}

abbrev alice : User
alice = record {
  user_id = codes "alice";
  name = codes "Alice";
  password = codes "pw";
  mdn = codes "0101";
}

abbrev post_request : Req
post_request = record {
  str_method = codes "POST";
  str_uri = codes "/join";
  str_version = codes "HTTP/1.1";
  t_content_headers = [];
  i_content_header_count = 0;
  str_body = [];
}

alice-IsReadable : IsReadable [] (join_body alice)
alice-IsReadable = ground arith

posted : is_method (codes "POST") 4 post_request ≡ true
unfolding strn_eq
posted = refl

some_response_fits : length (wire_text some_response) < Size.wire
unfolding wire_text decimal
some_response_fits = omega arith

handlers-AnswersOnce_example :
    AnswersOnce {P = platform}
      (pos 5)
      (join_steps (codes "{}") post_request)
      empty_world
      (http_join (pos 5) (codes "{}") post_request empty_world)
    × AnswersOnce {P = platform}
        (pos 5)
        (login_steps (codes "{}") post_request)
        empty_world
        (http_login (pos 5) (codes "{}") post_request empty_world)
    × AnswersOnce {P = platform}
        (pos 5)
        (create_room_steps (codes "{}") post_request)
        empty_world
        (http_create_room (pos 5) (codes "{}") post_request empty_world)
    × AnswersOnce {P = platform}
        (pos 5)
        (search_room_steps post_request)
        empty_world
        (http_search_room (pos 5) (codes "{}") post_request empty_world)
    × AnswersOnce {P = platform}
        (pos 5)
        (join_room_steps (codes "{}") post_request)
        empty_world
        (http_join_room (pos 5) (codes "{}") post_request empty_world)
    × AnswersOnce {P = platform}
        (pos 5)
        (invite_room_steps (codes "{}") post_request)
        empty_world
        (http_invite_room (pos 5) (codes "{}") post_request empty_world)
handlers-AnswersOnce_example =
    handlers-AnswersOnce {P = platform} refl (pos 5) refl post_request (codes "{}") empty_world

alice-IsSignup : IsSignup alice
alice-IsSignup = ground arith

join_user_lem_example :
    join_user alice empty_world
    ≡ join_outcome model_laws empty_world refl alice
        (is_absent (model_laws.kind empty_world.store (user_key alice.user_id)))
        (is_absent (model_laws.kind empty_world.store (mdn_key alice.mdn)))
join_user_lem_example = join_user_lem model_laws empty_world refl alice alice-IsSignup

alice-AreStrings : AreStrings alice (codes "no")
alice-AreStrings = record {
  user_id = nul_free-NoNul alice.user_id refl;
  name = nul_free-NoNul alice.name refl;
  own_password = nul_free-NoNul alice.password refl;
  mdn = nul_free-NoNul alice.mdn refl;
  given = nul_free-NoNul (codes "no") refl;
}

signs_in_served_example :
    SignsInServed {P = platform} 2
      (pos 5)
      (λ fd buf. pos (length buf))
      (pos 4)
      alice
      (codes "no")
      empty_world
signs_in_served_example =
    signs_in_served model_laws empty_world refl 2 (pos 5) (λ fd buf. pos (length buf)) (pos 4) alice
      (codes "no") refl refl refl alice-IsReadable (ground arith) alice-AreStrings refl refl

copy_field_example :
    msg_copy_json_string_field (codes "{\"id\": \"ab\"}") (codes "\"id\"") 16 ≡ some (codes "ab")
copy_field_example =
    copy_field (codes "id") (codes "ab") (codes "{") (codes "}") [] [] 16 (ground arith)
      (ground arith) (ground arith) tt (ground arith) (ground arith)

hdl_send_http_json_lem_example :
    hdl_send_http_json (pos 5) some_response empty_world
    ≡ (Rc.ok, record empty_world { sent = (pos 5, wire_text some_response) ∷ [] })
hdl_send_http_json_lem_example =
    hdl_send_http_json_lem {P = platform} (pos 5) some_response empty_world refl some_response_fits

joined-login_example :
    (w' : World platform) × (join_user alice empty_world ≡ (ok (some (join_data alice)), w'))
    × (login_user (codes "alice") (codes "no") w' ≡ (
      (if str_eq (codes "pw") (codes "no") then ok none else fail 401 ErrCode.wrong_password),
      w',
    ))
joined-login_example =
    joined-login model_laws empty_world refl alice (codes "no") alice-IsSignup refl refl
