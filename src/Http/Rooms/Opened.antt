-- ===== src/Http/Rooms/Opened.antt =====
-- A room from its creation on: what is stored for it, and who can join it.
use zam_tok.Http.Rooms.Creation.{named_room, create_room_lem}
use zam_tok.Http.Helpers.{http_validate_room_type_members, http_make_room_id}
use zam_tok.Prelude.{
  ◌<◌, true, false, ◌||◌, some, Bytes, codes, ◌≡◌, ap, ◌∙◌, arith, if◌then◌else◌, length,
}
use zam_tok.CString.{str_eq}
use zam_tok.CString.Search.{str_eq_self}
use zam_tok.CString.Format.{fit-fits}
use zam_tok.Codes.Rc
use zam_tok.Codes.Size
use zam_tok.Codes.{ErrCode}
use zam_tok.Step.{ok, fail}
use zam_tok.World.{Platform, World}
use zam_tok.Redis.Keys.{Room, is_empty, room_key, room_members_key, user_key, friend_key}
use zam_tok.Redis.Calls.{command}
use zam_tok.Redis.Rooms.{save_room, add_first_members}
use zam_tok.Redis.Rooms.Joining.{added, redis_add_room_member_lem}
use zam_tok.Redis.Laws.{
  takes_hash-absent, room_pairs, IsRedis, is_absent, takes_hash, hash, written, takes_set,
}
use zam_tok.Http.Members.{member_names, all_friends}
use zam_tok.Http.Rooms.{join_room, create_room_data, room_id_data, create_room}
use zam_tok.Http.Rooms.Access.{join_room_lem}
use zam_tok.Http.Rooms.Stored.{
  is_named, OpenAll, added-OpenAll, added_all, redis_add_room_members_lem, added_all-has_member,
  added_all-hget, added_all-room_kind, begun_store, begun-OpenAll, room_store, all_names,
}

-- What a database holds for a room: its hash, and the set of its members, which are those of before,
-- the creator, and the names.
pub record HoldsRoom {P : Platform} (L : IsRedis P) (r : Room) (before after : P.Store)
    : Type 0 where
  pub kind_is : L.kind after (room_key r.room_id) ≡ hash
  pub password_is : L.hget after (room_key r.room_id) (codes "pwd") ≡ some r.password
  pub creator_is : L.hget after (room_key r.room_id) (codes "user_id") ≡ some r.creator_id
  pub type_is : L.hget after (room_key r.room_id) (codes "room_type") ≡ some r.room_type
  pub list_is : L.hget after (room_key r.room_id) (codes "members") ≡ some r.members
  pub members_are :
      (m : Bytes)
      → L.has_member after (room_members_key r.room_id) m
        ≡ (is_named m (all_names L r) || L.has_member before (room_members_key r.room_id) m)

module _ {P : Platform} (L : IsRedis P) where
  begun_hget :
      (r : Room) (s : P.Store) (f : Bytes)
      → takes_hash (L.kind s (room_key r.room_id)) ≡ true
      → L.hget (begun_store L r s) (room_key r.room_id) f
        ≡ written (room_pairs P r) f (L.hget s (room_key r.room_id) f)
  begun_hget r s f typed =
      L.hset_hget s (room_key r.room_id) (room_pairs P r) (room_key r.room_id) f typed
      ∙ rw (str_eq_self (room_key r.room_id))

  -- The room's hash behind all commands is the one that the first of them wrote.
  room_store-hget :
      (r : Room) (s : P.Store) (f : Bytes)
      → takes_hash (L.kind s (room_key r.room_id)) ≡ true
      → OpenAll L r.room_id (all_names L r) (begun_store L r s)
      → L.hget (room_store L r s) (room_key r.room_id) f
        ≡ written (room_pairs P r) f (L.hget s (room_key r.room_id) f)
  room_store-hget r s f typed h =
      added_all-hget L r.room_id (all_names L r) (begun_store L r s) (room_key r.room_id) f h
      ∙ begun_hget r s f typed

  room_store-HoldsRoom :
      (r : Room) (s : P.Store)
      → takes_hash (L.kind s (room_key r.room_id)) ≡ true
      → OpenAll L r.room_id (all_names L r) s
      → HoldsRoom L r s (room_store L r s)
  unfolding str_eq
  room_store-HoldsRoom r s typed h =
      let h' = begun-OpenAll L r s (all_names L r) typed h in
      let read = λ (f : Bytes). room_store-hget r s f typed h' in
      record {
        kind_is =
            added_all-room_kind L r.room_id (all_names L r) (begun_store L r s) r.room_id h'
            ∙ L.hset_kind s (room_key r.room_id) (room_pairs P r) (room_key r.room_id) typed
            ∙ rw (str_eq_self (room_key r.room_id));
        password_is = read (codes "pwd");
        creator_is = read (codes "user_id");
        type_is = read (codes "room_type");
        list_is = read (codes "members");
        members_are = λ m.
            added_all-has_member L r.room_id (all_names L r) (begun_store L r s) m h'
            ∙ ap (◌||◌ (is_named m (all_names L r))) (
                L.hset_member s (room_key r.room_id) (room_pairs P r) (room_members_key r.room_id) m
                  typed);
      }

  add_first_members_lem :
      (r : Room) (w : World P)
      → is_empty r.creator_id ≡ false
      → OpenAll L r.room_id (all_names L r) w.store
      → add_first_members r w
        ≡ (Rc.ok, record w { store = added_all L r.room_id (all_names L r) w.store })
  unfolding add_first_members
  add_first_members_lem r w given h =
      let next = record w { store = added L r.room_id r.creator_id w.store } in
      rw (redis_add_room_member_lem L r.room_id r.creator_id w given (h.0, h.1.0)) (
        redis_add_room_members_lem L r.room_id r.members next
          (added-OpenAll L r.room_id r.creator_id (member_names r.members) w.store h))

  save_room_done :
      (r : Room) (w : World P)
      → is_empty r.creator_id ≡ false
      → takes_hash (L.kind w.store (room_key r.room_id)) ≡ true
      → OpenAll L r.room_id (all_names L r) (begun_store L r w.store)
      → save_room r w ≡ (Rc.ok, record w { store = room_store L r w.store })
  unfolding save_room command
  save_room_done r w given typed h = ground (
    arith,
    (L.hset_reply w.store (room_key r.room_id) (room_pairs P r) typed).1,
    add_first_members_lem r (record w { store = begun_store L r w.store }) given h,
  )

  -- On a database with the laws of Redis, where the keys that are written hold no other type, storing a
  -- room with a creator comes through, and leaves the room's hash and its members: the creator, each
  -- name in the member list, and nobody else who was no member before.
  pub save_room_lem :
      (r : Room) (w : World P)
      → is_empty r.creator_id ≡ false
      → takes_hash (L.kind w.store (room_key r.room_id)) ≡ true
      → OpenAll L r.room_id (all_names L r) w.store
      → (save_room r w ≡ (Rc.ok, record w { store = room_store L r w.store }))
        × HoldsRoom L r w.store (room_store L r w.store)
  save_room_lem r w given typed h = (
    save_room_done r w given typed (begun-OpenAll L r w.store (all_names L r) typed h),
    room_store-HoldsRoom r w.store typed h,
  )

-- A room that can be created: the checks of the handler come out well, and the keys that it writes are
-- free or hold no other type.
pub record CanCreate {P : Platform} (L : IsRedis P) (w : World P) (r : Room) (raw id : Bytes)
    : Type 0 where
  pub connected : w.connected ≡ true
  pub creator_given : is_empty r.creator_id ≡ false
  pub friends_typed : takes_set (L.kind w.store (friend_key r.creator_id)) ≡ true
  pub creator_known : is_absent (L.kind w.store (user_key r.creator_id)) ≡ false
  pub suits : http_validate_room_type_members r.room_type r.members ≡ Rc.ok
  pub all_known :
      all_friends L w connected r.creator_id friends_typed (member_names r.members) ≡ true
  pub id_made : http_make_room_id raw r.creator_id Size.room_id ≡ some id
  pub id_free : is_absent (L.kind w.store (room_key id)) ≡ true
  pub sets_typed : OpenAll L id (all_names L r) w.store
  pub password_fits : length r.password < Size.password

module _ {P : Platform} (L : IsRedis P) (w : World P) (r : Room) (raw id : Bytes)
    (h : CanCreate L w r raw id) where
  -- The world with the room stored.
  abbrev pub created : World P
  created = record w { store = room_store L (named_room r id) w.store }

  -- On a connected platform with the laws of Redis, a room that can be created is: the answer names it,
  -- the database holds its hash and as its members the creator and the names of the list, with those who
  -- were there before, and joining it then succeeds exactly with its password, and changes nothing.
  pub created-join :
      (create_room raw r w ≡ (ok (some (create_room_data (named_room r id))), created))
      × HoldsRoom L (named_room r id) w.store created.store
      × ((p : Bytes)
          → join_room id p created ≡ (
            (if str_eq r.password p
                then ok (some (room_id_data id))
                else fail 401 ErrCode.wrong_password),
            created,
          ))
  created-join =
      let typed = takes_hash-absent (L.kind w.store (room_key id)) h.id_free in
      let (saved, holds) = save_room_lem L (named_room r id) w h.creator_given typed h.sets_typed in
      (
        create_room_lem L w h.connected r h.friends_typed raw h.creator_given
            ∙ rw (h.creator_known, h.suits, h.all_known, h.id_made, h.id_free, saved),
        holds,
        λ p.
            join_room_lem L created h.connected id p (ap takes_hash holds.kind_is)
            ∙ rw (holds.password_is, fit-fits Size.password r.password h.password_fits),
      )
