-- ===== src/Http/Lists.antt =====
-- `http_list_friends` of src/SERVER/zt_http.c, and the printing of a JSON list into an array that it and
-- `http_list_rooms` do piece by piece.
pub mod Printed
pub mod Friends
use zam_tok.Prelude.{
  ℕ, ◌+◌, ℤ, is_neg, is_pos, is_nat, not, List, [], ◌∷◌, ◌++◌, Option, none, some, Bytes, codes,
  leb, if◌then◌else◌, length,
}
use zam_tok.Codes.Rc
use zam_tok.Codes.Size
use zam_tok.Codes.{ErrCode}
use zam_tok.Util.{Req}
use zam_tok.Step.{Step, ◌>>=◌, ◌>>◌, done, require, call}
use zam_tok.World.{Platform, World}
use zam_tok.Redis.Keys.{Friend, is_empty}
use zam_tok.Redis.Users.{redis_user_exists, redis_friend_list}
use zam_tok.Http.Helpers.{http_query_value}
use zam_tok.Http.Respond.{respond}
use zam_tok.Http.Users.{is_method}
use zam_tok.Http.Rooms.{present}

-- One `snprintf` behind what the array holds: `none` if the text and its NUL do not fit.
unfoldable pub print_behind : Bytes → Bytes → Option Bytes
print_behind str_list_data text =
    if leb Size.body_data (length str_list_data + length text)
    then none
    else some (str_list_data ++ text)

-- `(i_idx > 0) ? "," : ""`
abbrev pub comma : ℕ → Bytes
comma i_idx = if leb 1 i_idx then codes "," else []

-- The loop over the entries, from the index on.
unfoldable pub print_loop : List Bytes → ℕ → Bytes → Option Bytes
print_loop [] i_idx str_list_data = some str_list_data
print_loop (entry ∷ rest) i_idx str_list_data =
    elim (print_behind str_list_data (comma i_idx ++ entry)) [
      | none ↦ none
      | some longer ↦ print_loop rest (i_idx + 1) longer
    ]

-- The whole list.
unfoldable pub print_list : List Bytes → Option Bytes
print_list entries = elim (print_behind [] (codes "[")) [
  | none ↦ none
  | some begun ↦ elim (print_loop entries 0 begun) [
    | none ↦ none
    | some body ↦ print_behind body (codes "]")
  ]
]

-- `LIST_FRIENDS_DATA_FMT`
unfoldable pub friend_entry : Friend → Bytes
friend_entry f =
    codes "{\"user_id\":\""
    ++ (f.user_id
        ++ (codes "\",\"name\":\""
            ++ (f.name ++ (codes "\",\"mdn\":\"" ++ (f.mdn ++ codes "\"}")))))

-- The loop stops at the first entry without an id.
unfoldable pub friend_entries : List Friend → List Bytes
friend_entries [] = []
friend_entries (f ∷ rest) =
    let more = friend_entries rest in if is_empty f.user_id then [] else friend_entry f ∷ more

module _ {P : Platform} where
  -- `http_list_friends` behind the reading of the id
  unfoldable pub list_friends : Bytes → Step (World P) (Option Bytes)
  list_friends user_id = do
    known ← call (redis_user_exists user_id)
    require (not (is_nat known 0)) 404 ErrCode.user_not_found
    require (is_pos known) 500 ErrCode.server_error
    listed ← call (redis_friend_list user_id Size.friend_count)
    require (is_nat listed.0 0) 500 ErrCode.server_error
    text ← present (print_list (friend_entries listed.1)) 500 ErrCode.server_error
    done (some text)

  unfoldable pub list_friends_steps : Req → Step (World P) (Option Bytes)
  list_friends_steps t_request = do
    require (is_method (codes "GET") 3 t_request) 405 ErrCode.method_not_allowed
    id ←
        present (http_query_value t_request.str_uri (codes "user_id") Size.user_id) 400
          ErrCode.invalid_params
    list_friends id

  unfoldable pub http_list_friends : ℤ → Bytes → Req → World P → ℤ × World P
  http_list_friends socket buf t_request w =
      if is_neg socket
      then (Rc.arg_invalid, w)
      else respond socket t_request (list_friends_steps t_request w)
