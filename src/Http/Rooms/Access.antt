-- ===== src/Http/Rooms/Access.antt =====
-- Searching and joining rooms, on a connected platform that keeps the laws of Redis.
use zam_tok.Prelude.{
  true, [], Option, none, some, Bytes, codes, ◌≡◌, inl, inr, ◌∙◌, arith, if◌then◌else◌,
  Option-cases,
}
use zam_tok.CString.{str_eq, fit}
use zam_tok.Codes.Rc
use zam_tok.Codes.Size
use zam_tok.Codes.{ErrCode}
use zam_tok.Util.{Req}
use zam_tok.Step.{Result, ok, fail}
use zam_tok.World.{Platform, World}
use zam_tok.Redis.Keys.{zero_room, room_key, Room}
use zam_tok.Redis.Rooms.{apart, own_field, redis_room_get}
use zam_tok.Redis.Rooms.Replies.{redis_room_get_lem, stored_room}
use zam_tok.Redis.Laws.{IsRedis, is_absent, takes_hash, absent}
use zam_tok.Http.Helpers.{http_query_value}
use zam_tok.Http.Users.{is_method}
use zam_tok.Http.Rooms.{join_room, room_id_data, search_room_steps}

-- What joining a room answers, by the password that is stored under its id.
abbrev pub join_result : Bytes → Option Bytes → Bytes → Result (Option Bytes)
join_result id none p = fail 404 ErrCode.room_not_found
join_result id (some pwd) p =
    if str_eq (fit Size.password pwd) p
    then ok (some (room_id_data id))
    else fail 401 ErrCode.wrong_password

-- What searching answers if no room has an empty id.
abbrev pub search_failure : Req → Result (Option Bytes)
search_failure q =
    if is_method (codes "GET") 3 q
    then (elim (http_query_value q.str_uri (codes "id") Size.room_id) [
      | none ↦ fail 400 ErrCode.invalid_params
      | some id ↦ fail 404 ErrCode.room_not_found
    ])
    else fail 405 ErrCode.method_not_allowed

module _ {P : Platform} (L : IsRedis P) (w : World P) (up : w.connected ≡ true) where
  -- On a connected platform with the laws of Redis, where the room's key holds no other type, joining a
  -- room succeeds exactly with the password that is stored, cut to 15 bytes; an unknown room is refused
  -- with 404 and a wrong password with 401, and the world is left as it was.
  pub join_room_lem :
      (id p : Bytes)
      → takes_hash (L.kind w.store (room_key id)) ≡ true
      → join_room id p w ≡ (join_result id (stored_room L w up id (codes "pwd")) p, w)
  unfolding join_room
  join_room_lem id p typed = ground (arith, redis_room_get_lem L w up (apart id) zero_room typed)

  absent-kind :
      (id : Bytes)
      → is_absent (L.kind w.store (room_key id)) ≡ true
      → (L.kind w.store (room_key id) ≡ absent) × (takes_hash (L.kind w.store (room_key id)) ≡ true)
  absent-kind id h = ground arith

  get_nothing :
      (out : Room)
      → is_absent (L.kind w.store (room_key [])) ≡ true
      → redis_room_get own_field out w ≡ ((Rc.redis, zero_room), w)
  get_nothing out h =
      let (gone, typed) = absent-kind [] h in
      redis_room_get_lem L w up own_field out typed
      ∙ rw (L.hget_absent w.store (room_key []) (codes "pwd") gone)

  -- On a connected platform with the laws of Redis, where no key is "room:", a search never finds a
  -- room, whatever rooms there are: each GET request with an id is answered with 404.
  pub search_room_steps_lem :
      (q : Req)
      → is_absent (L.kind w.store (room_key [])) ≡ true
      → search_room_steps q w ≡ (search_failure q, w)
  unfolding search_room_steps
  search_room_steps_lem q h =
      elim (Option-cases (http_query_value q.str_uri (codes "id") Size.room_id)) [
        | inl e ↦ ground arith
        | inr (id, e) ↦ ground (arith, get_nothing (record zero_room { room_id = id }) h)
      ]
