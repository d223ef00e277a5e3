-- ===== src/Redis/Keys.antt =====
-- The structures of src/common/zt_chat.h, and the keys and commands of src/SERVER/zt_redis.h, as the
-- words that hiredis sends.
use zam_tok.Prelude.{Bool, true, false, List, [], ◌∷◌, ◌++◌, Bytes, codes}
use zam_tok.CString.{fit, decimal}
use zam_tok.Codes.Size
use zam_tok.World.{Platform}

-- `user_t`
pub record User : Type 0 where
  pub user_id : Bytes
  pub name : Bytes
  pub password : Bytes
  pub mdn : Bytes

abbrev pub zero_user : User
zero_user = record { user_id = []; name = []; password = []; mdn = [] }

-- `friend_t`
pub record Friend : Type 0 where
  pub user_id : Bytes
  pub name : Bytes
  pub mdn : Bytes

-- `room_t`
pub record Room : Type 0 where
  pub room_id : Bytes
  pub password : Bytes
  pub creator_id : Bytes
  pub room_type : Bytes
  pub members : Bytes
  pub channel_id : Bytes

abbrev pub zero_room : Room
zero_room = record {
  room_id = [];
  password = [];
  creator_id = [];
  room_type = [];
  members = [];
  channel_id = [];
}

-- `snprintf(key, KEY_MAX_LEN, "<prefix>%s", id)`
unfoldable pub user_key : Bytes → Bytes
user_key id = fit Size.key (codes "user:" ++ id)

unfoldable pub mdn_key : Bytes → Bytes
mdn_key id = fit Size.key (codes "mdn:" ++ id)

unfoldable pub room_key : Bytes → Bytes
room_key id = fit Size.key (codes "room:" ++ id)

unfoldable pub friend_key : Bytes → Bytes
friend_key id = fit Size.key (codes "friends:" ++ id)

unfoldable pub room_members_key : Bytes → Bytes
room_members_key id = fit Size.key (codes "room_members:" ++ id)

unfoldable pub user_rooms_key : Bytes → Bytes
user_rooms_key id = fit Size.key (codes "user_rooms:" ++ id)

-- `s[0] == '\0'`
abbrev pub is_empty : Bytes → Bool
is_empty [] = true
is_empty (c ∷ s) = false

-- `str_created`
unfoldable pub created_at : Platform → Bytes
created_at P = fit Size.created (decimal P.time)

-- `REDIS_USER_SAVE_CMD`
abbrev pub user_save_words : Platform → User → List Bytes
user_save_words P u =
    codes "HSET"
    ∷ user_key u.user_id
    ∷ codes "name"
    ∷ u.name
    ∷ codes "pwd"
    ∷ u.password
    ∷ codes "mdn"
    ∷ u.mdn
    ∷ codes "created_at"
    ∷ created_at P
    ∷ []

-- `REDIS_MDN_SAVE_CMD`
abbrev pub mdn_save_words : User → List Bytes
mdn_save_words u = codes "SET" ∷ mdn_key u.mdn ∷ u.user_id ∷ []

-- `REDIS_USER_GET_CMD`
abbrev pub user_get_words : Bytes → List Bytes
user_get_words user_id =
    codes "HMGET" ∷ user_key user_id ∷ codes "pwd" ∷ codes "name" ∷ codes "mdn" ∷ []

-- `REDIS_EXISTS_CMD`
abbrev pub exists_words : Bytes → List Bytes
exists_words key = codes "EXISTS" ∷ key ∷ []

-- `REDIS_IS_FRIEND_CMD`
abbrev pub is_friend_words : Bytes → Bytes → List Bytes
is_friend_words user_id friend_id = codes "SISMEMBER" ∷ friend_key user_id ∷ friend_id ∷ []

-- `REDIS_FRIEND_LIST_CMD`
abbrev pub friend_list_words : Bytes → List Bytes
friend_list_words user_id = codes "SMEMBERS" ∷ friend_key user_id ∷ []

-- `REDIS_ROOM_SAVE_CMD`
abbrev pub room_save_words : Platform → Room → List Bytes
room_save_words P r =
    codes "HSET"
    ∷ room_key r.room_id
    ∷ codes "pwd"
    ∷ r.password
    ∷ codes "created_at"
    ∷ created_at P
    ∷ codes "user_id"
    ∷ r.creator_id
    ∷ codes "room_type"
    ∷ r.room_type
    ∷ codes "members"
    ∷ r.members
    ∷ codes "channel_id"
    ∷ r.channel_id
    ∷ []

-- `REDIS_ROOM_GET_CMD`
abbrev pub room_get_words : Bytes → List Bytes
room_get_words room_id =
    codes "HMGET"
    ∷ room_key room_id
    ∷ codes "pwd"
    ∷ codes "user_id"
    ∷ codes "room_type"
    ∷ codes "members"
    ∷ codes "channel_id"
    ∷ []

-- `REDIS_ROOM_MEMBER_ADD_CMD`
abbrev pub room_member_add_words : Bytes → Bytes → List Bytes
room_member_add_words room_id user_id = codes "SADD" ∷ room_members_key room_id ∷ user_id ∷ []

-- `REDIS_USER_ROOM_ADD_CMD`
abbrev pub user_room_add_words : Bytes → Bytes → List Bytes
user_room_add_words room_id user_id = codes "SADD" ∷ user_rooms_key user_id ∷ room_id ∷ []
