-- ===== src/Redis/Rooms/Joining.antt =====
-- What `redis_add_room_member` of src/SERVER/zt_redis.c leaves in a database that keeps the laws of
-- Redis, one user after another.
use zam_tok.Prelude.{true, false, ◌||◌, Bytes, ◌≡◌, refl, ◌∙◌, arith}
use zam_tok.CString.{str_eq, fit}
use zam_tok.CString.Search.{str_eq_self}
use zam_tok.Codes.Rc
use zam_tok.World.{Platform, World}
use zam_tok.Redis.Keys.{
  is_empty, room_key, room_members_key, user_rooms_key, room_member_add_words, user_room_add_words,
}
use zam_tok.Redis.Calls.{command}
use zam_tok.Redis.Rooms.{redis_add_room_member}
use zam_tok.Redis.Laws.{IsRedis, takes_set}

module _ {P : Platform} (L : IsRedis P) where
  -- The database behind each of the two commands.
  abbrev pub joined : Bytes → Bytes → P.Store → P.Store
  joined id n s = (P.redis_command (room_member_add_words id n) s).1

  abbrev pub added : Bytes → Bytes → P.Store → P.Store
  added id n s = (P.redis_command (user_room_add_words id n) (joined id n s)).1

  -- The keys that a member is added to hold no other type.
  abbrev pub Open : Bytes → Bytes → P.Store → Type 0
  Open id n s =
      (takes_set (L.kind s (room_members_key id)) ≡ true)
      × (takes_set (L.kind s (user_rooms_key n)) ≡ true)

  joined-takes_set :
      (id n : Bytes) (s : P.Store) (k : Bytes)
      → Open id n s
      → takes_set (L.kind s k) ≡ true
      → takes_set (L.kind (joined id n s) k) ≡ true
  joined-takes_set id n s k (h, _) t = ground (arith, L.sadd_kind s (room_members_key id) n k h)

  pub added-takes_set :
      (id n : Bytes) (s : P.Store) (k : Bytes)
      → Open id n s
      → takes_set (L.kind s k) ≡ true
      → takes_set (L.kind (added id n s) k) ≡ true
  added-takes_set id n s k h t = ground (
    arith,
    L.sadd_kind (joined id n s) (user_rooms_key n) id k
        (joined-takes_set id n s (user_rooms_key n) h h.1),
    joined-takes_set id n s k h t,
  )

  pub redis_add_room_member_lem :
      (id n : Bytes) (w : World P)
      → is_empty n ≡ false
      → Open id n w.store
      → redis_add_room_member id n w ≡ (Rc.ok, record w { store = added id n w.store })
  unfolding redis_add_room_member command
  redis_add_room_member_lem id n w ne h = ground (
    arith,
    (L.sadd_reply w.store (room_members_key id) n h.0).1,
    (L.sadd_reply (joined id n w.store) (user_rooms_key n) id
        (joined-takes_set id n w.store (user_rooms_key n) h h.1)).1,
  )

  rooms-ne-members : (a b : Bytes) → str_eq (user_rooms_key a) (room_members_key b) ≡ false
  unfolding room_members_key user_rooms_key fit str_eq
  rooms-ne-members a b = refl

  -- Adding a member adds it to the room's members, and leaves those that were there.
  pub added-has_member :
      (id n m : Bytes) (s : P.Store)
      → Open id n s
      → L.has_member (added id n s) (room_members_key id) m
        ≡ (str_eq n m || L.has_member s (room_members_key id) m)
  added-has_member id n m s h = ground (
    arith,
    L.sadd_member (joined id n s) (user_rooms_key n) id (room_members_key id) m
        (joined-takes_set id n s (user_rooms_key n) h h.1),
    L.sadd_member s (room_members_key id) n (room_members_key id) m h.0,
    rooms-ne-members n id,
    str_eq_self (room_members_key id),
  )

  -- Adding a member leaves every hash as it was.
  pub added-hget :
      (id n : Bytes) (s : P.Store) (k f : Bytes)
      → Open id n s
      → L.hget (added id n s) k f ≡ L.hget s k f
  added-hget id n s k f h =
      L.sadd_hget (joined id n s) (user_rooms_key n) id k f
        (joined-takes_set id n s (user_rooms_key n) h h.1)
      ∙ L.sadd_hget s (room_members_key id) n k f h.0

  sets-ne-room :
      (a b : Bytes)
      → (str_eq (user_rooms_key a) (room_key b) ≡ false)
        × (str_eq (room_members_key a) (room_key b) ≡ false)
  unfolding room_key room_members_key user_rooms_key fit str_eq
  sets-ne-room a b = (refl, refl)

  -- Adding a member leaves the keys of rooms as they were.
  pub added-room_kind :
      (id n j : Bytes) (s : P.Store)
      → Open id n s
      → L.kind (added id n s) (room_key j) ≡ L.kind s (room_key j)
  added-room_kind id n j s h =
      L.sadd_kind (joined id n s) (user_rooms_key n) id (room_key j)
        (joined-takes_set id n s (user_rooms_key n) h h.1)
      ∙ rw (sets-ne-room n j).0
          (L.sadd_kind s (room_members_key id) n (room_key j) h.0 ∙ rw (sets-ne-room id j).1)
