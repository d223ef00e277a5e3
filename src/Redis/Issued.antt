-- ===== src/Redis/Issued.antt =====
-- Every command that src/SERVER/zt_redis.c sends to Redis, and what a call of it leaves as it is: the
-- messages sent, the connection, and every property of the database that the commands keep.
pub mod Rooms
use zam_tok.Prelude.{
  ℕ, ◌+◌, zero, suc, ◌-◌, ◌*◌, ◌≤◌, ◌<◌, ℤ, pos, negsuc, is_neg, is_pos, is_nat, Bool, true, false,
  not, ◌&&◌, ◌||◌, List, [], ◌∷◌, ◌++◌, Option, none, some, Bytes, codes, ◌≡◌, ◌≢◌, ◌↔◌, ◌⊎◌, inl,
  inr, refl, sym, ap, ◌∙◌, subst, arith, ◌==◌, ltb, leb, if◌then◌else◌, Bool-cases, Option-cases,
  length, take, drop, get_or, set, append_assoc, append-nil, length-append, All, replicate,
  List-cases,
}
use zam_tok.Codes.Size
use zam_tok.CString.{fit}
use zam_tok.Codes.{ErrCode}
use zam_tok.World.{Platform, Reply, World, answered, str_of}
use zam_tok.Redis.Keys.{
  Friend, Room, User, exists_words, friend_list_words, is_empty, is_friend_words, mdn_save_words,
  room_get_words, room_key, room_member_add_words, room_save_words, user_get_words,
  user_room_add_words, user_save_words, zero_room, zero_user,
}
use zam_tok.Redis.Calls.{command, finish_ok, redis_exists_key, store_then}
use zam_tok.Redis.Users.{
  elements_of, friend_loop, redis_friend_list, redis_mdn_exists, redis_user_exists, redis_user_get,
  redis_user_is_friend, redis_user_save,
}
use zam_tok.Redis.Rooms.{
  RoomIdPtr, add_first_members, apart, member_loop, member_tokens, own_field, read_id,
  redis_add_room_member, redis_add_room_members, redis_room_get, redis_room_invite, redis_room_save,
  redis_trim_token, save_room,
}
use zam_tok.Outcome.{Outcome, Returns, out_of_fuel, overruns, returns}
use zam_tok.Redis.RoomList.{
  goes_on, id_of_key, key_loop, page_of, redis_room_list, room_list_words, scan_loop,
}
use zam_tok.Redis.RoomList.Ends.{Listed, ScanEnds, redis_room_list-Returns}

-- The commands, by the macros of src/SERVER/zt_redis.h that they are printed with.
pub data IsIssued (P : Platform) : List Bytes → Type 0 where
  exists_sent : (key : Bytes) → IsIssued P (exists_words key)
  user_saved : (u : User) → IsIssued P (user_save_words P u)
  mdn_saved : (u : User) → IsIssued P (mdn_save_words u)
  user_read : (id : Bytes) → IsIssued P (user_get_words id)
  friend_tested : (a b : Bytes) → IsIssued P (is_friend_words a b)
  friends_read : (id : Bytes) → IsIssued P (friend_list_words id)
  room_saved : (r : Room) → IsIssued P (room_save_words P r)
  room_read : (id : Bytes) → IsIssued P (room_get_words id)
  rooms_read : (cursor : Bytes) → IsIssued P (room_list_words cursor)
  member_added : (r u : Bytes) → IsIssued P (room_member_add_words r u)
  room_added : (r u : Bytes) → IsIssued P (user_room_add_words r u)

-- A property of the database that each of the commands keeps.
pub record Invariant (P : Platform) : Type 1 where
  pub Holds : P.Store → Type 0
  pub kept :
      (words : List Bytes)
      → IsIssued P words
      → (s : P.Store) → Holds s
      → Holds (P.redis_command words s).1

abbrev pub no_invariant : (P : Platform) → Invariant P
no_invariant P = record { Holds = λ s. Unit {0}; kept = λ words i s h. tt }

module _ {P : Platform} (I : Invariant P) where
  -- What stays as it is, and what the database still is.
  pub record Same (w w' : World P) : Type 0 where
    pub same_sent : w'.sent ≡ w.sent
    pub same_connected : w'.connected ≡ w.connected
    pub still : I.Holds w.store → I.Holds w'.store

  abbrev pub Keeps : {A : Type 0} → (World P → A × World P) → Type 0
  Keeps f = (w : World P) → Same w (f w).1

  pub Same-refl : (w : World P) → Same w w
  Same-refl w = record { same_sent = refl; same_connected = refl; still = λ h. h }

  pub Same-trans : (u v w : World P) → Same u v → Same v w → Same u w
  Same-trans u v w h k = record {
    same_sent = k.same_sent ∙ h.same_sent;
    same_connected = k.same_connected ∙ h.same_connected;
    still = λ x. k.still (h.still x);
  }

  pub command-Keeps :
      (words : List Bytes) → IsIssued P words → Keeps {A = Option Reply} (command words)
  unfolding command
  command-Keeps words i w = record {
    same_sent = refl;
    same_connected = refl;
    still = λ h. I.kept words i w.store h;
  }

  pub redis_exists_key-Keeps : (k : Bytes) → Keeps {A = ℤ} (redis_exists_key k)
  unfolding redis_exists_key
  redis_exists_key-Keeps k w = ground (arith, command-Keeps (exists_words k) (exists_sent k) w)

  pub finish_ok-Keeps : Keeps {A = ℤ} finish_ok
  finish_ok-Keeps w = Same-refl w

  pub store_then-Keeps :
      (words : List Bytes) (next : World P → ℤ × World P)
      → IsIssued P words
      → Keeps {A = ℤ} next
      → Keeps {A = ℤ} (store_then words next)
  store_then-Keeps words next i h w = ground (arith, command-Keeps words i w, h (command words w).1)

  pub redis_user_exists-Keeps : (id : Bytes) → Keeps {A = ℤ} (redis_user_exists id)
  unfolding redis_user_exists
  redis_user_exists-Keeps id w = elim (Bool-cases (is_empty id)) [
    | inl e ↦ rw e (Same-refl w)
    | inr e ↦ rw e (redis_exists_key-Keeps _ w)
  ]

  pub redis_mdn_exists-Keeps : (id : Bytes) → Keeps {A = ℤ} (redis_mdn_exists id)
  unfolding redis_mdn_exists
  redis_mdn_exists-Keeps id w = elim (Bool-cases (is_empty id)) [
    | inl e ↦ rw e (Same-refl w)
    | inr e ↦ rw e (redis_exists_key-Keeps _ w)
  ]

  pub redis_user_save-Keeps : (u : User) → Keeps {A = ℤ} (redis_user_save u)
  unfolding redis_user_save
  redis_user_save-Keeps u w =
      elim (Bool-cases (not w.connected || is_empty u.user_id || is_empty u.mdn)) [
        | inl e ↦ rw e (Same-refl w)
        | inr e ↦ rw e (
            store_then-Keeps (user_save_words P u) (store_then (mdn_save_words u) finish_ok)
              (user_saved u)
              (store_then-Keeps (mdn_save_words u) finish_ok (mdn_saved u) finish_ok-Keeps) w)
      ]

  pub redis_user_get-Keeps :
      (id : Bytes) (out : User) → Keeps {A = ℤ × User} (redis_user_get id out)
  unfolding redis_user_get
  redis_user_get-Keeps id out w = ground (arith, command-Keeps (user_get_words id) (user_read id) w)

  pub redis_user_is_friend-Keeps : (a b : Bytes) → Keeps {A = ℤ} (redis_user_is_friend a b)
  unfolding redis_user_is_friend
  redis_user_is_friend-Keeps a b w =
      ground (arith, command-Keeps (is_friend_words a b) (friend_tested a b) w)

  friend_loop-Keeps : (n : ℕ) (rs : List Reply) → Keeps {A = List Friend} (friend_loop n rs)
  unfolding friend_loop
  friend_loop-Keeps n [] w = Same-refl w
  friend_loop-Keeps zero (r ∷ rs) w = Same-refl w
  friend_loop-Keeps (suc n) (r ∷ rs) w = elim (Option-cases (str_of r)) [
    | inl e ↦ rw (e, friend_loop) (friend_loop-Keeps (suc n) rs w)
    | inr (id, e) ↦
        let w1 = (redis_user_get id zero_user w).1 in
        rw (e, friend_loop)
          (Same-trans w w1 _ (redis_user_get-Keeps id zero_user w) (friend_loop-Keeps n rs w1))
  ]

  pub friend_list-Keeps :
      (id : Bytes) (n : ℕ) → Keeps {A = ℤ × List Friend} (redis_friend_list id n)
  unfolding redis_friend_list
  friend_list-Keeps id n w =
      let asked = command {P = P} (friend_list_words id) w in
      elim (Option-cases (answered asked.0)) [
        | inl e ↦ ground (arith, command-Keeps (friend_list_words id) (friends_read id) w)
        | inr (r, e) ↦ ground (
          arith,
          command-Keeps (friend_list_words id) (friends_read id) w,
          friend_loop-Keeps n (elements_of r) asked.1,
        )
      ]
