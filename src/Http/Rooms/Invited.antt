-- ===== src/Http/Rooms/Invited.antt =====
-- Inviting to rooms (`http_invite_room` of src/SERVER/zt_http.c), on a connected platform that keeps the
-- laws of Redis.
use zam_tok.Prelude.{
  ℤ, true, false, not, Option, none, some, Bytes, codes, ◌≡◌, arith, if◌then◌else◌,
}
use zam_tok.Codes.Rc
use zam_tok.Codes.{ErrCode}
use zam_tok.Step.{Result, ok, fail}
use zam_tok.World.{Platform, World}
use zam_tok.Redis.Keys.{zero_room, is_empty, room_key, user_key, friend_key}
use zam_tok.Redis.Rooms.{apart, redis_room_invite}
use zam_tok.Redis.Users.Replies.{redis_user_exists_lem}
use zam_tok.Redis.Rooms.Replies.{redis_room_get_lem, stored_room}
use zam_tok.Redis.Laws.{IsRedis, is_absent, takes_hash, takes_set}
use zam_tok.Http.Members.{member_names, all_friends, http_members_are_friends_lem}
use zam_tok.Http.Rooms.{invite_room, room_id_data}
use zam_tok.Http.Rooms.Stored.{OpenAll, added_all, redis_add_room_members_lem}

module _ {P : Platform} (L : IsRedis P) (w : World P) (up : w.connected ≡ true) (id user m : Bytes)
    (friends_typed : takes_set (L.kind w.store (friend_key user)) ≡ true)
    (room_typed : takes_hash (L.kind w.store (room_key id)) ≡ true)
    (sets_typed : OpenAll L id (member_names m) w.store) where
  -- The world with the names as members of the room.
  abbrev pub invited : World P
  invited = record w { store = added_all L id (member_names m) w.store }

  abbrev pub found_outcome : Option Bytes → ℤ × World P
  found_outcome none = (Rc.redis, w)
  found_outcome (some pwd) = (Rc.ok, invited)

  redis_room_invite_lem :
      redis_room_invite id user m w ≡ found_outcome (stored_room L w up id (codes "pwd"))
  unfolding redis_room_invite
  redis_room_invite_lem = ground (
    arith,
    redis_room_get_lem L w up (apart id) zero_room room_typed,
    redis_add_room_members_lem L id m w sets_typed,
  )

  -- What is answered, by the password that is stored under the room's id.
  abbrev pub invite_answer : Option Bytes → Result (Option Bytes) × World P
  invite_answer none = (fail 404 ErrCode.room_not_found, w)
  invite_answer (some pwd) = (ok (some (room_id_data id)), invited)

  -- On a connected platform with the laws of Redis, where the keys that are read and written hold no
  -- other type, an invitation by a user with an id is refused with 401 if there is no such user, with 403
  -- if a name in the list is neither the user's nor a friend's of the user, and with 404 if there is no
  -- such room, and then nothing is stored; otherwise each name in the list becomes a member of the room.
  pub invite_room_lem :
      is_empty user ≡ false
      → invite_room id user m w ≡ (
          if is_absent (L.kind w.store (user_key user))
          then (fail 401 ErrCode.user_not_found, w)
          else if not (all_friends L w up user friends_typed (member_names m))
          then (fail 403 ErrCode.not_friend, w)
          else invite_answer (stored_room L w up id (codes "pwd")))
  unfolding invite_room
  invite_room_lem given = ground (
    arith,
    redis_user_exists_lem L w up user given,
    http_members_are_friends_lem L w up user friends_typed m,
    redis_room_invite_lem,
  )
