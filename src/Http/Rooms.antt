-- ===== src/Http/Rooms.antt =====
-- `http_create_room`, `http_search_room`, `http_join_room` and `http_invite_room` of
-- src/SERVER/zt_http.c.
pub mod Access
pub mod Stored
pub mod Creation
pub mod Opened
pub mod Invited
use zam_tok.Prelude.{
  ℕ, ◌+◌, ◌*◌, ℤ, is_neg, is_nat, not, List, [], ◌∷◌, ◌++◌, Option, none, some, Bytes, codes,
  if◌then◌else◌, get_or,
}
use zam_tok.CString.{str_eq, fit}
use zam_tok.Codes.Rc
use zam_tok.Codes.Size
use zam_tok.Codes.{ErrCode}
use zam_tok.Util.{Req, FieldSpec}
use zam_tok.Step.{fail, Step, ◌>>=◌, ◌>>◌, done, require, call}
use zam_tok.World.{Platform, World}
use zam_tok.Redis.Keys.{Room, zero_room}
use zam_tok.Redis.Users.{redis_user_exists}
use zam_tok.Redis.Rooms.{apart, own_field, redis_room_save, redis_room_get, redis_room_invite}
use zam_tok.Http.Helpers.{
  http_get_body, http_query_value, http_validate_room_type_members, http_members_are_friends,
  http_make_room_id,
}
use zam_tok.Http.Respond.{bind_fields, respond}
use zam_tok.Http.Users.{user_id_key, password_key, is_method}

abbrev pub room_id_key : Bytes
room_id_key = codes "\"room_id\""

abbrev pub room_type_key : Bytes
room_type_key = codes "\"room_type\""

abbrev pub members_key : Bytes
members_key = codes "\"members\""

abbrev pub create_fields : List FieldSpec
create_fields =
    record { str_json_key = room_id_key; sz_out = Size.room_id }
    ∷ record { str_json_key = password_key; sz_out = Size.password }
    ∷ record { str_json_key = user_id_key; sz_out = Size.user_id }
    ∷ record { str_json_key = room_type_key; sz_out = Size.room_type }
    ∷ record { str_json_key = members_key; sz_out = Size.room_members }
    ∷ []

abbrev pub join_room_fields : List FieldSpec
join_room_fields =
    record { str_json_key = room_id_key; sz_out = Size.room_id }
    ∷ record { str_json_key = password_key; sz_out = Size.password }
    ∷ []

abbrev pub invite_fields : List FieldSpec
invite_fields =
    record { str_json_key = room_id_key; sz_out = Size.room_id }
    ∷ record { str_json_key = user_id_key; sz_out = Size.user_id }
    ∷ record { str_json_key = members_key; sz_out = Size.room_members }
    ∷ []

-- The structure that the fields of `create_fields` but the first one fill.
abbrev pub asked_room : List Bytes → Room
asked_room outs = record zero_room {
  password = get_or outs 1 [];
  creator_id = get_or outs 2 [];
  room_type = get_or outs 3 [];
  members = get_or outs 4 [];
}

-- `CREATE_ROOM_DATA_FMT`
unfoldable pub create_room_data : Room → Bytes
create_room_data r = fit (Size.room_id * 2 + 64) (
    codes "{\"room_id\":\""
    ++ (r.room_id ++ (codes "\",\"channel_id\":\"" ++ (r.channel_id ++ codes "\"}"))))

-- `SEARCH_ROOM_DATA_FMT`, `JOIN_ROOM_DATA_FMT` and `INVITE_ROOM_DATA_FMT`, which are the same
unfoldable pub room_id_data : Bytes → Bytes
room_id_data room_id = fit (Size.room_id + 32) (codes "{\"room_id\":\"" ++ (room_id ++ codes "\"}"))

-- A value, or `goto next` with a status and an error code.
abbrev pub present : {S A : Type 0} → Option A → ℕ → ErrCode → Step S A
present (some a) n e s = done a s
present none n e s = (fail n e, s)

module _ {P : Platform} where
  -- `http_create_room` behind the reading of the fields
  unfoldable pub create_room : Bytes → Room → Step (World P) (Option Bytes)
  create_room raw_room_id r = do
    known ← call (redis_user_exists r.creator_id)
    require (not (is_neg known)) 500 ErrCode.server_error
    require (not (is_nat known 0)) 401 ErrCode.user_not_found
    let valid = http_validate_room_type_members r.room_type r.members
    require (is_nat valid 0) 400 ErrCode.invalid_params
    friends ← call (http_members_are_friends r.creator_id r.members)
    require (not (is_nat friends 1)) 403 ErrCode.not_friend
    require (is_nat friends 0) 500 ErrCode.server_error
    id ←
        present (http_make_room_id raw_room_id r.creator_id Size.room_id) 400 ErrCode.invalid_params
    let room = record r { room_id = id; channel_id = fit Size.room_id id }
    saved ← call (redis_room_save room)
    require (not (is_nat saved 4)) 409 ErrCode.room_already_exists
    require (is_nat saved 0) 500 ErrCode.server_error
    done (some (create_room_data room))

  unfoldable pub create_room_steps : Bytes → Req → Step (World P) (Option Bytes)
  create_room_steps buf t_request = do
    require (is_method (codes "POST") 4 t_request) 405 ErrCode.method_not_allowed
    outs ← bind_fields (http_get_body buf) create_fields
    create_room (get_or outs 0 []) (asked_room outs)

  unfoldable pub http_create_room : ℤ → Bytes → Req → World P → ℤ × World P
  http_create_room socket buf t_request w =
      if is_neg socket
      then (Rc.arg_invalid, w)
      else respond socket t_request (create_room_steps buf t_request w)

  -- The id stands in `t_room.room_id`, and `redis_room_get` gets that array and `t_room` itself.
  unfoldable pub search_room_steps : Req → Step (World P) (Option Bytes)
  search_room_steps t_request = do
    require (is_method (codes "GET") 3 t_request) 405 ErrCode.method_not_allowed
    id ←
        present (http_query_value t_request.str_uri (codes "id") Size.room_id) 400
          ErrCode.invalid_params
    got ← call (redis_room_get own_field (record zero_room { room_id = id }))
    require (is_nat got.0 0) 404 ErrCode.room_not_found
    done (some (room_id_data got.1.room_id))

  unfoldable pub http_search_room : ℤ → Bytes → Req → World P → ℤ × World P
  http_search_room socket buf t_request w =
      if is_neg socket
      then (Rc.arg_invalid, w)
      else respond socket t_request (search_room_steps t_request w)

  -- `http_join_room` behind the reading of the fields
  unfoldable pub join_room : Bytes → Bytes → Step (World P) (Option Bytes)
  join_room room_id password = do
    got ← call (redis_room_get (apart room_id) zero_room)
    require (is_nat got.0 0) 404 ErrCode.room_not_found
    require (str_eq got.1.password password) 401 ErrCode.wrong_password
    done (some (room_id_data room_id))

  unfoldable pub join_room_steps : Bytes → Req → Step (World P) (Option Bytes)
  join_room_steps buf t_request = do
    require (is_method (codes "POST") 4 t_request) 405 ErrCode.method_not_allowed
    outs ← bind_fields (http_get_body buf) join_room_fields
    join_room (get_or outs 0 []) (get_or outs 1 [])

  unfoldable pub http_join_room : ℤ → Bytes → Req → World P → ℤ × World P
  http_join_room socket buf t_request w =
      if is_neg socket
      then (Rc.arg_invalid, w)
      else respond socket t_request (join_room_steps buf t_request w)

  -- `http_invite_room` behind the reading of the fields
  unfoldable pub invite_room : Bytes → Bytes → Bytes → Step (World P) (Option Bytes)
  invite_room room_id user_id members = do
    known ← call (redis_user_exists user_id)
    require (not (is_neg known)) 500 ErrCode.server_error
    require (not (is_nat known 0)) 401 ErrCode.user_not_found
    friends ← call (http_members_are_friends user_id members)
    require (not (is_nat friends 1)) 403 ErrCode.not_friend
    require (is_nat friends 0) 500 ErrCode.server_error
    invited ← call (redis_room_invite room_id user_id members)
    require (is_nat invited 0) 404 ErrCode.room_not_found
    done (some (room_id_data room_id))

  unfoldable pub invite_room_steps : Bytes → Req → Step (World P) (Option Bytes)
  invite_room_steps buf t_request = do
    require (is_method (codes "POST") 4 t_request) 405 ErrCode.method_not_allowed
    outs ← bind_fields (http_get_body buf) invite_fields
    invite_room (get_or outs 0 []) (get_or outs 1 []) (get_or outs 2 [])

  unfoldable pub http_invite_room : ℤ → Bytes → Req → World P → ℤ × World P
  http_invite_room socket buf t_request w =
      if is_neg socket
      then (Rc.arg_invalid, w)
      else respond socket t_request (invite_room_steps buf t_request w)
