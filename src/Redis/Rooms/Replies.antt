-- ===== src/Redis/Rooms/Replies.antt =====
-- What the functions of src/SERVER/zt_redis.c on rooms return, on a connected platform that keeps the
-- laws of Redis.
use zam_tok.Prelude.{
  ℤ, true, false, [], ◌∷◌, Option, none, some, Bytes, codes, ◌≡◌, refl, arith, if◌then◌else◌,
}
use zam_tok.CString.{fit}
use zam_tok.Codes.Rc
use zam_tok.Codes.Size
use zam_tok.World.{array, str_of, Platform, World}
use zam_tok.Redis.Keys.{Room, zero_room, is_empty, room_key, room_get_words}
use zam_tok.Redis.Calls.{command, copy_text}
use zam_tok.Redis.Rooms.{RoomIdPtr, read_id, redis_room_get, redis_room_save, save_room}
use zam_tok.Redis.Users.Replies.{redis_exists_key_lem}
use zam_tok.Redis.Laws.{IsRedis, is_absent, takes_hash, reply_of, fields_of}

module _ {P : Platform} (L : IsRedis P) (w : World P) (up : w.connected ≡ true) where
  -- The stored hash of a room, as `HMGET` returns it.
  abbrev pub stored_room : Bytes → Bytes → Option Bytes
  stored_room id f = L.hget w.store (room_key id) f

  room_get_reply :
      (id : Bytes)
      → takes_hash (L.kind w.store (room_key id)) ≡ true
      → command (room_get_words id) w ≡ (
        some (
            array (
              fields_of (stored_room id) (
                codes "pwd"
                ∷ codes "user_id"
                ∷ codes "room_type"
                ∷ codes "members"
                ∷ codes "channel_id"
                ∷ []))),
        w,
      )
  unfolding command
  room_get_reply id typed = rw (L.hmget_law w.store (room_key id) _ typed)

  -- What `redis_room_get` returns by the stored password.
  abbrev pub got_room : Bytes → Option Bytes → ℤ × Room
  got_room id none = (Rc.redis, zero_room)
  got_room id (some pwd) = (
    Rc.ok,
    record {
      room_id = fit Size.room_id id;
      password = fit Size.password pwd;
      creator_id = copy_text Size.user_id (stored_room id (codes "user_id"));
      room_type = copy_text Size.room_type (stored_room id (codes "room_type"));
      members = copy_text Size.room_members (stored_room id (codes "members"));
      channel_id = copy_text Size.room_id (stored_room id (codes "channel_id"));
    },
  )

  str_of-reply_of : (o : Option Bytes) → str_of (reply_of o) ≡ o
  str_of-reply_of none = refl
  str_of-reply_of (some s) = refl

  -- On a connected platform with the laws of Redis, `redis_room_get` asks for the id that the structure
  -- holds once it is zeroed, or for the one that is given apart from it; on a key that holds no other
  -- type it fails exactly if there is no password, and else returns the stored fields, cut to fit.
  pub redis_room_get_lem :
      (p : RoomIdPtr) (out : Room)
      → takes_hash (L.kind w.store (room_key (read_id p zero_room))) ≡ true
      → redis_room_get p out w
        ≡ (got_room (read_id p zero_room) (stored_room (read_id p zero_room) (codes "pwd")), w)
  unfolding redis_room_get
  redis_room_get_lem p out typed = ground (
    arith,
    room_get_reply (read_id p zero_room) typed,
    str_of-reply_of (stored_room (read_id p zero_room) (codes "pwd")),
  )

  -- On a connected platform with the laws of Redis, saving a room with an id and a creator is refused
  -- with `ZT_RC_CTX`, and nothing is stored, exactly if its key exists; otherwise it is stored.
  pub redis_room_save_lem :
      (r : Room)
      → is_empty r.room_id ≡ false
      → is_empty r.creator_id ≡ false
      → redis_room_save r w
        ≡ (if is_absent (L.kind w.store (room_key r.room_id)) then save_room r w else (Rc.ctx, w))
  unfolding redis_room_save
  redis_room_save_lem r h k = ground (arith, redis_exists_key_lem L w up (room_key r.room_id))
