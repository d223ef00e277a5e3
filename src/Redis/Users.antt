-- ===== src/Redis/Users.antt =====
-- src/SERVER/zt_redis.c: users, telephone numbers and friends. A function that fills a structure takes
-- it as it was and returns it.
pub mod Replies
use zam_tok.Prelude.{
  ℕ, zero, suc, ℤ, pos, negsuc, is_nat, ◌||◌, not, List, [], ◌∷◌, Option, none, some, Bytes, ltb,
  leb, if◌then◌else◌, length,
}
use zam_tok.CString.{fit, str_eq}
use zam_tok.Codes.Rc
use zam_tok.Codes.Size
use zam_tok.World.{Reply, array, replies, str_of, integer_of, answered, Platform, World}
use zam_tok.Redis.Keys.{
  User, zero_user, Friend, is_empty, user_key, mdn_key, friend_key, created_at, user_save_words,
  mdn_save_words, user_get_words, is_friend_words, friend_list_words,
}
use zam_tok.Redis.Calls.{command, redis_exists_key, store_then, finish_ok, text_at, copy_text}

-- The structure that the reply to `HMGET` fills, or `none` where the code returns
-- `ZT_RC_REDIS` with the structure zeroed.
abbrev pub user_of : Bytes → Option Reply → Option User
user_of user_id (some (array rs)) =
    let elements = replies rs in
    if ltb (length elements) 3 then none else elim (text_at elements 0) [
      | none ↦ none
      | some pwd ↦ some (record {
        user_id = fit Size.user_id user_id;
        password = fit Size.password pwd;
        name = copy_text Size.name (text_at elements 1);
        mdn = copy_text Size.mdn (text_at elements 2);
      })
    ]
user_of user_id _ = none

-- The value that `redis_user_is_friend` reads off a reply.
abbrev pub is_friend_of : Option Reply → ℤ
is_friend_of none = negsuc 0
is_friend_of (some r) = if is_nat (integer_of r) 1 then pos 1 else pos 0

-- The entry of `out_friends` for one friend: what `redis_user_get` found, or the bare id.
abbrev pub friend_of : Bytes → ℤ × User → Friend
friend_of friend_id (rc, u) =
    if is_nat rc 0
    then record {
      user_id = fit Size.user_id u.user_id;
      name = fit Size.name u.name;
      mdn = fit Size.mdn u.mdn;
    }
    else record { user_id = fit Size.user_id friend_id; name = []; mdn = [] }

-- `reply->element`, of which a reply that is no array has none.
abbrev pub elements_of : Reply → List Reply
elements_of (array rs) = replies rs
elements_of _ = []

module _ {P : Platform} where
  unfoldable pub redis_user_exists : Bytes → World P → ℤ × World P
  redis_user_exists user_id w =
      if is_empty user_id then (negsuc 0, w) else redis_exists_key (user_key user_id) w

  unfoldable pub redis_mdn_exists : Bytes → World P → ℤ × World P
  redis_mdn_exists mdn w = if is_empty mdn then (negsuc 0, w) else redis_exists_key (mdn_key mdn) w

  unfoldable pub redis_user_save : User → World P → ℤ × World P
  redis_user_save user w =
      if not w.connected || is_empty user.user_id || is_empty user.mdn
      then (Rc.arg_invalid, w)
      else store_then (user_save_words P user) (store_then (mdn_save_words user) finish_ok) w

  unfoldable pub redis_user_get : Bytes → User → World P → (ℤ × User) × World P
  redis_user_get user_id out_user w =
      let asked = command (user_get_words user_id) w in
      if not w.connected
      then ((Rc.arg_invalid, out_user), w)
      else elim (user_of user_id (answered asked.0)) [
        | none ↦ ((Rc.redis, zero_user), asked.1)
        | some u ↦ ((Rc.ok, u), asked.1)
      ]

  -- -1 is an error, 1 a friend (everybody is their own), 0 no friend.
  unfoldable pub redis_user_is_friend : Bytes → Bytes → World P → ℤ × World P
  redis_user_is_friend user_id friend_id w =
      let asked = command (is_friend_words user_id friend_id) w in
      if not w.connected
      then (negsuc 0, w)
      else if str_eq user_id friend_id
      then (pos 1, w)
      else (is_friend_of (answered asked.0), asked.1)

  -- The loop over the elements; the first argument is the room left, `max_friends - count`.
  unfoldable pub friend_loop : ℕ → List Reply → World P → List Friend × World P
  friend_loop room [] w = ([], w)
  friend_loop zero (r ∷ rs) w = ([], w)
  friend_loop (suc room) (r ∷ rs) w = elim (str_of r) [
    | none ↦ friend_loop (suc room) rs w
    | some friend_id ↦
        let got = redis_user_get friend_id zero_user w in
        let rest = friend_loop room rs got.1 in (friend_of friend_id got.0 ∷ rest.0, rest.1)
  ]

  -- The entries of `out_friends` that are filled; the others are zero.
  unfoldable pub redis_friend_list : Bytes → ℕ → World P → (ℤ × List Friend) × World P
  redis_friend_list user_id max_friends w =
      let asked = command (friend_list_words user_id) w in
      if not w.connected || leb max_friends 0
      then ((Rc.arg_invalid, []), w)
      else elim (answered asked.0) [
        | none ↦ ((Rc.redis, []), asked.1)
        | some r ↦
            let listed = friend_loop max_friends (elements_of r) asked.1 in
            ((Rc.ok, listed.0), listed.1)
      ]
