-- ===== src/Http/Users.antt =====
-- `http_join`, `http_login` and `http_list_friends` of src/SERVER/zt_http.c.
pub mod Accounts
use zam_tok.Prelude.{
  ℕ, ◌+◌, ℤ, is_neg, is_pos, is_nat, Bool, not, List, [], ◌∷◌, ◌++◌, Option, none, some, Bytes,
  codes, if◌then◌else◌, get_or,
}
use zam_tok.CString.{str_eq, strn_eq, fit}
use zam_tok.Codes.Rc
use zam_tok.Codes.Size
use zam_tok.Codes.{ErrCode}
use zam_tok.Util.{Req, FieldSpec}
use zam_tok.Step.{Step, ◌>>=◌, ◌>>◌, done, require, call}
use zam_tok.World.{Platform, World}
use zam_tok.Redis.Keys.{User, zero_user}
use zam_tok.Redis.Users.{redis_user_exists, redis_mdn_exists, redis_user_save, redis_user_get}
use zam_tok.Http.Helpers.{http_get_body}
use zam_tok.Http.Respond.{bind_fields, respond}

-- The keys, with their quotes (src/SERVER/zt_http.h).
abbrev pub user_id_key : Bytes
user_id_key = codes "\"user_id\""

abbrev pub name_key : Bytes
name_key = codes "\"name\""

abbrev pub password_key : Bytes
password_key = codes "\"password\""

abbrev pub mdn_key : Bytes
mdn_key = codes "\"mdn\""

abbrev pub join_fields : List FieldSpec
join_fields =
    record { str_json_key = user_id_key; sz_out = Size.user_id }
    ∷ record { str_json_key = name_key; sz_out = Size.name }
    ∷ record { str_json_key = password_key; sz_out = Size.password }
    ∷ record { str_json_key = mdn_key; sz_out = Size.mdn }
    ∷ []

abbrev pub login_fields : List FieldSpec
login_fields =
    record { str_json_key = user_id_key; sz_out = Size.user_id }
    ∷ record { str_json_key = password_key; sz_out = Size.password }
    ∷ []

-- The structure whose arrays the fields of `join_fields` are.
abbrev pub joined_user : List Bytes → User
joined_user outs = record {
  user_id = get_or outs 0 [];
  name = get_or outs 1 [];
  password = get_or outs 2 [];
  mdn = get_or outs 3 [];
}

-- `JOIN_DATA_FMT`
unfoldable pub join_data : User → Bytes
join_data u =
    fit (Size.user_id + Size.mdn + 48)
      (codes "{\"user_id\":\"" ++ (u.user_id ++ (codes "\",\"mdn\":\"" ++ (u.mdn ++ codes "\"}"))))

abbrev pub is_method : Bytes → ℕ → Req → Bool
is_method name n r = strn_eq n r.str_method name

module _ {P : Platform} where
  -- `http_join` behind the reading of the fields
  unfoldable pub join_user : User → Step (World P) (Option Bytes)
  join_user u = do
    known ← call (redis_user_exists u.user_id)
    require (not (is_neg known)) 500 ErrCode.server_error
    require (not (is_pos known)) 409 ErrCode.user_already_exists
    taken ← call (redis_mdn_exists u.mdn)
    require (not (is_neg taken)) 500 ErrCode.server_error
    require (not (is_pos taken)) 409 ErrCode.mdn_already_exists
    saved ← call (redis_user_save u)
    require (is_nat saved 0) 500 ErrCode.server_error
    done (some (join_data u))

  unfoldable pub join_steps : Bytes → Req → Step (World P) (Option Bytes)
  join_steps buf t_request = do
    require (is_method (codes "POST") 4 t_request) 405 ErrCode.method_not_allowed
    outs ← bind_fields (http_get_body buf) join_fields
    join_user (joined_user outs)

  unfoldable pub http_join : ℤ → Bytes → Req → World P → ℤ × World P
  http_join socket buf t_request w =
      if is_neg socket
      then (Rc.arg_invalid, w)
      else respond socket t_request (join_steps buf t_request w)

  -- `http_login` behind the reading of the fields
  unfoldable pub login_user : Bytes → Bytes → Step (World P) (Option Bytes)
  login_user user_id password = do
    got ← call (redis_user_get user_id zero_user)
    require (is_nat got.0 0) 401 ErrCode.user_not_found
    require (str_eq got.1.password password) 401 ErrCode.wrong_password
    done none

  unfoldable pub login_steps : Bytes → Req → Step (World P) (Option Bytes)
  login_steps buf t_request = do
    require (is_method (codes "POST") 4 t_request) 405 ErrCode.method_not_allowed
    outs ← bind_fields (http_get_body buf) login_fields
    login_user (get_or outs 0 []) (get_or outs 1 [])

  unfoldable pub http_login : ℤ → Bytes → Req → World P → ℤ × World P
  http_login socket buf t_request w =
      if is_neg socket
      then (Rc.arg_invalid, w)
      else respond socket t_request (login_steps buf t_request w)
