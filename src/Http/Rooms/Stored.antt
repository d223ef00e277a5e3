-- ===== src/Http/Rooms/Stored.antt =====
-- What `redis_room_save` and `redis_room_invite` of src/SERVER/zt_redis.c leave in a database that keeps
-- the laws of Redis: the room, its members, and the rooms of each of them.
use zam_tok.Prelude.{
  Bool, true, false, ◌||◌, List, [], ◌∷◌, Bytes, ◌≡◌, inl, inr, refl, ◌∙◌, arith, All, List-cases,
}
use zam_tok.CString.{str_eq, fit, skip_ws, trim_end, tokens, one_of}
use zam_tok.Codes.Rc
use zam_tok.World.{Platform, World}
use zam_tok.Redis.Keys.{Room, room_key, room_members_key, user_rooms_key, room_save_words}
use zam_tok.Redis.Rooms.{redis_trim_token, member_tokens, member_loop, redis_add_room_members}
use zam_tok.Redis.Rooms.Joining.{
  added, Open, added-takes_set, redis_add_room_member_lem, added-has_member, added-hget,
  added-room_kind,
}
use zam_tok.Redis.Laws.{room_pairs, IsRedis, takes_set, takes_hash}
use zam_tok.Http.Helpers.{http_trim_token, split_members}
use zam_tok.Http.Members.{names, member_names}

-- A name is among the names.
abbrev pub is_named : Bytes → List Bytes → Bool
is_named m [] = false
is_named m (n ∷ ns) = str_eq n m || is_named m ns

module _ {P : Platform} (L : IsRedis P) where
  -- The database behind the adding of each name in turn.
  abbrev pub added_all : Bytes → List Bytes → P.Store → P.Store
  added_all id [] s = s
  added_all id (n ∷ ns) s = added_all id ns (added L id n s)

  -- The keys that they are added to hold no other type.
  abbrev pub OpenAll : Bytes → List Bytes → P.Store → Type 0
  OpenAll id ns s =
      (takes_set (L.kind s (room_members_key id)) ≡ true)
      × All (λ n. takes_set (L.kind s (user_rooms_key n)) ≡ true) ns

  added-rooms :
      (id n : Bytes) (ns : List Bytes) (s : P.Store)
      → Open L id n s
      → All (λ n. takes_set (L.kind s (user_rooms_key n)) ≡ true) ns
      → All (λ m. takes_set (L.kind (added L id n s) (user_rooms_key m)) ≡ true) ns
  added-rooms id n [] s h k = tt
  added-rooms id n (m ∷ ns) s h (t, k) =
      (added-takes_set L id n s (user_rooms_key m) h t, added-rooms id n ns s h k)

  pub added-OpenAll :
      (id n : Bytes) (ns : List Bytes) (s : P.Store)
      → OpenAll id (n ∷ ns) s
      → OpenAll id ns (added L id n s)
  added-OpenAll id n ns s (h, (t, k)) =
      (added-takes_set L id n s (room_members_key id) (h, t) h, added-rooms id n ns s (h, t) k)

  member_loop_lem :
      (id : Bytes) (ts : List Bytes) (w : World P)
      → OpenAll id (names ts) w.store
      → member_loop id ts w ≡ (Rc.ok, record w { store = added_all id (names ts) w.store })
  unfolding member_loop redis_trim_token http_trim_token
  member_loop_lem id [] w h = refl
  member_loop_lem id (t ∷ ts) w h = elim (List-cases (trim_end (skip_ws t))) [
    | inl e ↦ rw (e, member_loop) (member_loop_lem id ts w (rw e at h))
    | inr (c, name, e) ↦
        let h' = rw e at h in
        let first = redis_add_room_member_lem L id (c ∷ name) w refl (h'.0, h'.1.0) in
        rw (e, member_loop)
          (rw (first, first)
            (member_loop_lem id ts (record w { store = added L id (c ∷ name) w.store })
              (added-OpenAll id (c ∷ name) (names ts) w.store h')))
  ]

  pub redis_add_room_members_lem :
      (id m : Bytes) (w : World P)
      → OpenAll id (member_names m) w.store
      → redis_add_room_members id m w
        ≡ (Rc.ok, record w { store = added_all id (member_names m) w.store })
  unfolding redis_add_room_members member_tokens split_members tokens one_of fit
  redis_add_room_members_lem id [] w h = refl
  redis_add_room_members_lem id (c ∷ m) w h = member_loop_lem id (split_members (c ∷ m)) w h

  -- The members of the room afterwards are those before and the names.
  pub added_all-has_member :
      (id : Bytes) (ns : List Bytes) (s : P.Store) (m : Bytes)
      → OpenAll id ns s
      → L.has_member (added_all id ns s) (room_members_key id) m
        ≡ (is_named m ns || L.has_member s (room_members_key id) m)
  added_all-has_member id [] s m h = refl
  added_all-has_member id (n ∷ ns) s m h = ground (
    arith,
    added_all-has_member id ns (added L id n s) m (added-OpenAll id n ns s h),
    added-has_member L id n m s (h.0, h.1.0),
  )

  pub added_all-hget :
      (id : Bytes) (ns : List Bytes) (s : P.Store) (k f : Bytes)
      → OpenAll id ns s
      → L.hget (added_all id ns s) k f ≡ L.hget s k f
  added_all-hget id [] s k f h = refl
  added_all-hget id (n ∷ ns) s k f h =
      added_all-hget id ns (added L id n s) k f (added-OpenAll id n ns s h)
      ∙ added-hget L id n s k f (h.0, h.1.0)

  pub added_all-room_kind :
      (id : Bytes) (ns : List Bytes) (s : P.Store) (j : Bytes)
      → OpenAll id ns s
      → L.kind (added_all id ns s) (room_key j) ≡ L.kind s (room_key j)
  added_all-room_kind id [] s j h = refl
  added_all-room_kind id (n ∷ ns) s j h =
      added_all-room_kind id ns (added L id n s) j (added-OpenAll id n ns s h)
      ∙ added-room_kind L id n j s (h.0, h.1.0)

  -- The database behind the first command of `redis_room_save`, and behind all of them.
  abbrev pub begun_store : Room → P.Store → P.Store
  begun_store r s = (P.redis_command (room_save_words P r) s).1

  abbrev pub all_names : Room → List Bytes
  all_names r = r.creator_id ∷ member_names r.members

  abbrev pub room_store : Room → P.Store → P.Store
  room_store r s = added_all r.room_id (all_names r) (begun_store r s)

  pub room-ne-sets :
      (a b : Bytes)
      → (str_eq (room_key a) (user_rooms_key b) ≡ false)
        × (str_eq (room_key a) (room_members_key b) ≡ false)
  unfolding room_key room_members_key user_rooms_key fit str_eq
  room-ne-sets a b = (refl, refl)

  begun-rooms :
      (r : Room) (s : P.Store) (ns : List Bytes)
      → takes_hash (L.kind s (room_key r.room_id)) ≡ true
      → All (λ n. takes_set (L.kind s (user_rooms_key n)) ≡ true) ns
      → All (λ n. takes_set (L.kind (begun_store r s) (user_rooms_key n)) ≡ true) ns
  begun-rooms r s [] t h = tt
  begun-rooms r s (n ∷ ns) t (k, h) = (
    ground (
      arith,
      L.hset_kind s (room_key r.room_id) (room_pairs P r) (user_rooms_key n) t,
      (room-ne-sets r.room_id n).0,
    ),
    begun-rooms r s ns t h,
  )

  pub begun-OpenAll :
      (r : Room) (s : P.Store) (ns : List Bytes)
      → takes_hash (L.kind s (room_key r.room_id)) ≡ true
      → OpenAll r.room_id ns s
      → OpenAll r.room_id ns (begun_store r s)
  begun-OpenAll r s ns t (k, h) = (
    ground (
      arith,
      L.hset_kind s (room_key r.room_id) (room_pairs P r) (room_members_key r.room_id) t,
      (room-ne-sets r.room_id r.room_id).1,
    ),
    begun-rooms r s ns t h,
  )
