-- ===== src/Redis/Rooms.antt =====
-- src/SERVER/zt_redis.c: rooms and their members.
pub mod Replies
pub mod Joining
use zam_tok.Prelude.{
  ℤ, is_neg, is_pos, is_nat, true, false, ◌||◌, not, List, [], ◌∷◌, Option, none, some, Bytes,
  codes, ltb, if◌then◌else◌, length,
}
use zam_tok.CString.{fit, skip_ws, trim_end, tokens, one_of}
use zam_tok.Codes.Rc
use zam_tok.Codes.Size
use zam_tok.World.{Reply, array, replies, answered, Platform, World}
use zam_tok.Redis.Keys.{
  Room, zero_room, is_empty, room_key, room_save_words, room_get_words, room_member_add_words,
  user_room_add_words,
}
use zam_tok.Redis.Calls.{command, redis_exists_key, store_then, finish_ok, text_at, copy_text}

-- `redis_trim_token`
unfoldable pub redis_trim_token : Bytes → Bytes
unfolding skip_ws trim_end
redis_trim_token str = trim_end (skip_ws str)

-- The tokens that the loops over a member list read, before they are trimmed: the list is first
-- copied to an array of `ROOM_MEMBERS_MAX_LEN` bytes.
unfoldable pub member_tokens : Bytes → List Bytes
unfolding fit tokens one_of
member_tokens members = tokens (one_of (codes ",")) (fit Size.room_members members)

-- A `const char *room_id` beside a `room_t *out_room`: a string of its own, or the structure's field.
pub data RoomIdPtr : Type 0 where
  apart : Bytes → RoomIdPtr
  own_field : RoomIdPtr

-- What the pointer reads, now.
abbrev pub read_id : RoomIdPtr → Room → Bytes
read_id (apart s) r = s
read_id own_field r = r.room_id

-- The structure that the reply to `HMGET` fills, or `none` where the code returns
-- `ZT_RC_REDIS` with the structure zeroed.
abbrev pub room_of : Bytes → Option Reply → Option Room
room_of room_id (some (array rs)) =
    let elements = replies rs in
    if ltb (length elements) 5 then none else elim (text_at elements 0) [
      | none ↦ none
      | some pwd ↦ some (record {
        room_id = fit Size.room_id room_id;
        password = fit Size.password pwd;
        creator_id = copy_text Size.user_id (text_at elements 1);
        room_type = copy_text Size.room_type (text_at elements 2);
        members = copy_text Size.room_members (text_at elements 3);
        channel_id = copy_text Size.room_id (text_at elements 4);
      })
    ]
room_of room_id _ = none

module _ {P : Platform} where
  unfoldable pub redis_add_room_member : Bytes → Bytes → World P → ℤ × World P
  redis_add_room_member room_id user_id w =
      if is_empty user_id
      then (Rc.arg_invalid, w)
      else store_then (room_member_add_words room_id user_id)
          (store_then (user_room_add_words room_id user_id) finish_ok) w

  unfoldable pub member_loop : Bytes → List Bytes → World P → ℤ × World P
  member_loop room_id [] w = (Rc.ok, w)
  member_loop room_id (token ∷ rest) w = elim (redis_trim_token token) [
    | [] ↦ member_loop room_id rest w
    | c ∷ name ↦
        let added = redis_add_room_member room_id (c ∷ name) w in
        elim (is_nat added.0 0) [ true ↦ member_loop room_id rest added.1 | false ↦ added ]
  ]

  unfoldable pub redis_add_room_members : Bytes → Bytes → World P → ℤ × World P
  redis_add_room_members room_id members w =
      if is_empty members then (Rc.ok, w) else member_loop room_id (member_tokens members) w

  -- A call whose code is returned at once if it is not `ZT_RC_OK`.
  abbrev pub ok_then : ℤ × World P → (World P → ℤ × World P) → ℤ × World P
  ok_then (rc, w) next = elim (is_nat rc 0) [ true ↦ next w | false ↦ (rc, w) ]

  -- The members that a new room has: its creator, and those that were named.
  unfoldable pub add_first_members : Room → World P → ℤ × World P
  add_first_members room w =
      ok_then (redis_add_room_member room.room_id room.creator_id w)
        (redis_add_room_members room.room_id room.members)

  unfoldable pub save_room : Room → World P → ℤ × World P
  save_room room = store_then (room_save_words P room) (add_first_members room)

  unfoldable pub redis_room_save : Room → World P → ℤ × World P
  redis_room_save room w =
      let exists = redis_exists_key (room_key room.room_id) w in
      if not w.connected || is_empty room.room_id || is_empty room.creator_id
      then (Rc.arg_invalid, w)
      else if is_neg exists.0
      then (Rc.redis, exists.1)
      else if is_pos exists.0
      then (Rc.ctx, exists.1)
      else save_room room exists.1

  -- `out_room` is zeroed before the id is read.
  unfoldable pub redis_room_get : RoomIdPtr → Room → World P → (ℤ × Room) × World P
  redis_room_get p out_room w =
      let room_id = read_id p zero_room in
      let asked = command (room_get_words room_id) w in
      if not w.connected
      then ((Rc.arg_invalid, out_room), w)
      else elim (room_of room_id (answered asked.0)) [
        | none ↦ ((Rc.redis, zero_room), asked.1)
        | some r ↦ ((Rc.ok, r), asked.1)
      ]

  unfoldable pub redis_room_invite : Bytes → Bytes → Bytes → World P → ℤ × World P
  redis_room_invite room_id user_id members w =
      let got = redis_room_get (apart room_id) zero_room w in
      if not w.connected
      then (Rc.arg_invalid, w)
      else ok_then (got.0.0, got.1) (redis_add_room_members room_id members)
