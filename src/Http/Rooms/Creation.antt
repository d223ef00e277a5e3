-- ===== src/Http/Rooms/Creation.antt =====
-- Creating rooms (`http_create_room` of src/SERVER/zt_http.c), on a connected platform that keeps the
-- laws of Redis.
use zam_tok.Prelude.{
  ℕ, ℤ, is_nat, true, false, not, [], ◌∷◌, Option, none, some, Bytes, ◌≡◌, inl, inr, arith,
  if◌then◌else◌, Option-cases,
}
use zam_tok.CString.{fit}
use zam_tok.Codes.Size
use zam_tok.Codes.{ErrCode}
use zam_tok.Step.{Result, ok, fail}
use zam_tok.World.{Platform, World}
use zam_tok.Redis.Keys.{Room, is_empty, room_key, user_key, friend_key}
use zam_tok.Redis.Rooms.{save_room}
use zam_tok.Redis.Users.Replies.{redis_user_exists_lem}
use zam_tok.Redis.Rooms.Replies.{redis_room_save_lem}
use zam_tok.Redis.Laws.{IsRedis, is_absent, takes_set}
use zam_tok.Http.Helpers.{http_make_room_id, http_validate_room_type_members}
use zam_tok.Http.Members.{member_names, all_friends, http_members_are_friends_lem}
use zam_tok.Http.Rooms.{create_room, create_room_data}

-- The room that is stored under an id: the id stands for the channel too.
abbrev pub named_room : Room → Bytes → Room
named_room r id = record r { room_id = id; channel_id = fit Size.room_id id }

-- What is answered by the code of `redis_room_save`.
abbrev pub save_answer : Room → ℤ → Result (Option Bytes)
save_answer room rc =
    if is_nat rc 4
    then fail 409 ErrCode.room_already_exists
    else if is_nat rc 0
    then ok (some (create_room_data room))
    else fail 500 ErrCode.server_error

make_room_id-nonempty :
    (a b : Bytes) (n : ℕ) {id : Bytes} → http_make_room_id a b n ≡ some id → is_empty id ≡ false
unfolding http_make_room_id
make_room_id-nonempty [] b n e = ground arith
make_room_id-nonempty (c ∷ a) b n e = ground arith

module _ {P : Platform} (L : IsRedis P) (w : World P) (up : w.connected ≡ true) (r : Room)
    (typed : takes_set (L.kind w.store (friend_key r.creator_id)) ≡ true) where
  -- The outcome for a room whose id is made.
  abbrev pub store_outcome : Room → Result (Option Bytes) × World P
  store_outcome room =
      if is_absent (L.kind w.store (room_key room.room_id))
      then (save_answer room (save_room room w).0, (save_room room w).1)
      else (fail 409 ErrCode.room_already_exists, w)

  abbrev pub id_outcome : Option Bytes → Result (Option Bytes) × World P
  id_outcome none = (fail 400 ErrCode.invalid_params, w)
  id_outcome (some id) = store_outcome (named_room r id)

  -- The checks of the handler, in order.
  abbrev pub create_outcome : Bytes → Result (Option Bytes) × World P
  create_outcome raw =
      if is_absent (L.kind w.store (user_key r.creator_id))
      then (fail 401 ErrCode.user_not_found, w)
      else if not (is_nat (http_validate_room_type_members r.room_type r.members) 0)
      then (fail 400 ErrCode.invalid_params, w)
      else if not (all_friends L w up r.creator_id typed (member_names r.members))
      then (fail 403 ErrCode.not_friend, w)
      else id_outcome (http_make_room_id raw r.creator_id Size.room_id)

  -- On a connected platform with the laws of Redis, where the key of the creator's friends holds no
  -- other type, a room of a creator with an id is stored only if the creator is a user, the type suits
  -- the member list, each name in it is the creator or a friend of the creator's, the id that is made of
  -- the room's and the creator's fits its array, and no room has it; otherwise the first of these that
  -- fails is answered with its own status, and nothing is stored.
  pub create_room_lem :
      (raw : Bytes) → is_empty r.creator_id ≡ false → create_room raw r w ≡ create_outcome raw
  unfolding create_room
  create_room_lem raw given =
      elim (Option-cases (http_make_room_id raw r.creator_id Size.room_id)) [
        | inl e ↦ ground (
          arith,
          redis_user_exists_lem L w up r.creator_id given,
          http_members_are_friends_lem L w up r.creator_id typed r.members,
        )
        | inr (id, e) ↦ ground (
          arith,
          redis_user_exists_lem L w up r.creator_id given,
          http_members_are_friends_lem L w up r.creator_id typed r.members,
          redis_room_save_lem L w up (named_room r id)
              (make_room_id-nonempty raw r.creator_id Size.room_id e) given,
        )
      ]
