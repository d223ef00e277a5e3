-- ===== src/Chat.antt =====
-- src/CLIENT/zt_chat.c and the senders of src/CLIENT/zt_sock.c: the client's requests. A sender gets
-- what `write` answers as its first argument, and returns its code with the bytes that it handed to
-- `write`, if it came to that.
pub mod Fields
pub mod Requests
pub mod Rooms
pub mod Routed
use zam_tok.Prelude.{
  ℕ, ℤ, pos, negsuc, is_neg, is_nat, Bool, true, false, ◌||◌, List, [], ◌∷◌, ◌++◌, Option, none,
  some, Bytes, codes, ◌==◌, leb, if◌then◌else◌, length,
}
use zam_tok.CString.{fit, decimal}
use zam_tok.Codes.Rc
use zam_tok.Redis.Keys.{User}

-- `HTTP_REQUEST_FMT`
unfoldable pub http_request : Bytes → Bytes → Bytes → Bytes → Bytes
http_request method path host body =
    method
    ++ (codes " "
        ++ (path
            ++ (codes " HTTP/1.1\r\nHost: "
                ++ (host
                    ++ (codes "\r\nContent-Type: application/json\r\nContent-Length: "
                        ++ (decimal (length body) ++ (codes "\r\n\r\n" ++ body)))))))

-- `n != len`, for a result that is not negative
abbrev partial_write : ℤ → Bytes → Bool
partial_write (pos n) buf = if n == length buf then false else true
partial_write (negsuc n) buf = false

-- `SOCKET_SendRequestBuf`
unfoldable pub socket_send_request_buf : (ℤ → Bytes → ℤ) → ℤ → Bytes → ℤ × Option Bytes
socket_send_request_buf write socket req_buf =
    if is_neg socket
    then (Rc.arg_invalid, none)
    else if is_neg (write socket req_buf) || partial_write (write socket req_buf) req_buf
    then (Rc.socket, some req_buf)
    else (Rc.ok, some req_buf)

-- `SOCKET_SendHttpRequest`: a request without a body.
unfoldable pub socket_send_http_request :
    (ℤ → Bytes → ℤ) → ℤ → Bytes → Bytes → Bytes → ℤ × Option Bytes
socket_send_http_request write socket host method path =
    let req_buf = http_request method path host [] in
    if is_neg socket
    then (Rc.arg_invalid, none)
    else if leb 2048 (length req_buf)
    then (Rc.arg_invalid, none)
    else socket_send_request_buf write socket req_buf

-- What the senders with a body do once it is printed: a request that does not fit is refused.
unfoldable pub post : (ℤ → Bytes → ℤ) → ℤ → ℕ → Bytes → Bytes → ℤ × Option Bytes
post write socket size path json_body =
    let req_buf = http_request (codes "POST") path (codes "localhost:8080") json_body in
    if leb size (length req_buf)
    then (negsuc 0, none)
    else socket_send_request_buf write socket req_buf

-- The bodies, before they are cut to `json_body`.
abbrev pub join_json : User → Bytes
join_json u =
    codes "{\"user_id\": \""
    ++ (u.user_id
        ++ (codes "\", \"name\": \""
            ++ (u.name
                ++ (codes "\", \"password\": \""
                    ++ (u.password ++ (codes "\", \"mdn\": \"" ++ (u.mdn ++ codes "\"}")))))))

abbrev pub login_json : Bytes → Bytes → Bytes
login_json user_id password =
    codes "{\"user_id\": \""
    ++ (user_id ++ (codes "\", \"password\": \"" ++ (password ++ codes "\"}")))

abbrev pub create_room_json : Bytes → Bytes → Bytes → Bytes → Bytes → Bytes
create_room_json room_id password user_id room_type members =
    codes "{\"room_id\": \""
    ++ (room_id
        ++ (codes "\", \"password\": \""
            ++ (password
                ++ (codes "\", \"user_id\": \""
                    ++ (user_id
                        ++ (codes "\", \"room_type\": \""
                            ++ (room_type
                                ++ (codes "\", \"members\": \"" ++ (members ++ codes "\"}")))))))))

abbrev pub join_room_json : Bytes → Bytes → Bytes
join_room_json room_id password =
    codes "{\"room_id\": \""
    ++ (room_id ++ (codes "\", \"password\": \"" ++ (password ++ codes "\"}")))

abbrev pub invite_json : Bytes → Bytes → Bytes → Bytes
invite_json room_id user_id members =
    codes "{\"room_id\": \""
    ++ (room_id
        ++ (codes "\", \"user_id\": \""
            ++ (user_id ++ (codes "\", \"members\": \"" ++ (members ++ codes "\"}")))))

module _ (write : ℤ → Bytes → ℤ) (socket : ℤ) where
  unfoldable pub chat_join : User → ℤ × Option Bytes
  unfolding fit
  chat_join u =
      if is_neg socket
      then (negsuc 0, none)
      else post write socket 1024 (codes "/join") (fit 512 (join_json u))

  unfoldable pub chat_login : Bytes → Bytes → ℤ × Option Bytes
  unfolding fit
  chat_login user_id password =
      post write socket 1024 (codes "/login") (fit 256 (login_json user_id password))

  unfoldable pub chat_create_room : Bytes → Bytes → Bytes → Bytes → Bytes → ℤ × Option Bytes
  unfolding fit
  chat_create_room room_id password user_id room_type members =
      if is_neg socket
      then (negsuc 0, none)
      else post write socket 2048 (codes "/room")
          (fit 1024 (create_room_json room_id password user_id room_type members))

  unfoldable pub chat_search_room : Bytes → ℤ × Option Bytes
  unfolding fit
  chat_search_room room_id =
      if is_neg socket
      then (negsuc 0, none)
      else socket_send_http_request write socket (codes "localhost") (codes "GET")
          (fit 128 (codes "/room?id=" ++ room_id))

  unfoldable pub chat_list_rooms : ℤ × Option Bytes
  chat_list_rooms =
      if is_neg socket
      then (negsuc 0, none)
      else socket_send_http_request write socket (codes "localhost") (codes "GET") (codes "/rooms")

  unfoldable pub chat_join_room : Bytes → Bytes → ℤ × Option Bytes
  unfolding fit
  chat_join_room room_id password =
      if is_neg socket
      then (negsuc 0, none)
      else post write socket 1024 (codes "/room/join") (fit 256 (join_room_json room_id password))

  unfoldable pub chat_list_friends : Bytes → ℤ × Option Bytes
  unfolding fit
  chat_list_friends [] = (negsuc 0, none)
  chat_list_friends (c ∷ user_id) =
      if is_neg socket
      then (negsuc 0, none)
      else socket_send_http_request write socket (codes "localhost") (codes "GET")
          (fit 128 (codes "/friends?user_id=" ++ c ∷ user_id))

  unfoldable pub chat_invite_room : Bytes → Bytes → Bytes → ℤ × Option Bytes
  unfolding fit
  chat_invite_room room_id user_id members =
      if is_neg socket
      then (negsuc 0, none)
      else post write socket 2048 (codes "/room/invite")
          (fit 1024 (invite_json room_id user_id members))
