-- ===== src/Redis/Users/Replies.antt =====
-- What the functions on users return on a connected platform that keeps the laws of Redis.
use zam_tok.Prelude.{
  ℤ, pos, true, false, [], ◌∷◌, Option, none, some, Bytes, codes, ◌≡◌, refl, ◌∙◌, arith,
  if◌then◌else◌,
}
use zam_tok.CString.{str_eq, fit}
use zam_tok.CString.Search.{str_eq_self}
use zam_tok.Codes.Rc
use zam_tok.Codes.Size
use zam_tok.World.{Platform, World, integer, array, str_of}
use zam_tok.Redis.Keys.{
  User, zero_user, is_empty, user_key, mdn_key, exists_words, user_save_words, mdn_save_words,
  user_get_words,
}
use zam_tok.Redis.Calls.{command, redis_exists_key, copy_text}
use zam_tok.Redis.Users.{redis_user_exists, redis_mdn_exists, redis_user_save, redis_user_get}
use zam_tok.Redis.Laws.{
  user_pairs, IsRedis, hash, is_absent, takes_hash, written, fields_of, reply_of,
}

module _ {P : Platform} (L : IsRedis P) (w : World P) (up : w.connected ≡ true) where
  abbrev pub exists_code : Bytes → ℤ
  exists_code k = if is_absent (L.kind w.store k) then pos 0 else pos 1

  exists_reply : (k : Bytes) → command (exists_words k) w ≡ (some (integer (exists_code k)), w)
  unfolding command
  exists_reply k = rw (L.exists_law w.store k)

  pub redis_exists_key_lem : (k : Bytes) → redis_exists_key k w ≡ (exists_code k, w)
  unfolding redis_exists_key
  redis_exists_key_lem k = ground (arith, exists_reply k)

  pub redis_user_exists_lem :
      (id : Bytes) → is_empty id ≡ false → redis_user_exists id w ≡ (exists_code (user_key id), w)
  unfolding redis_user_exists
  redis_user_exists_lem id h = rw h (redis_exists_key_lem (user_key id))

  pub redis_mdn_exists_lem :
      (id : Bytes) → is_empty id ≡ false → redis_mdn_exists id w ≡ (exists_code (mdn_key id), w)
  unfolding redis_mdn_exists
  redis_mdn_exists_lem id h = rw h (redis_exists_key_lem (mdn_key id))

  -- The stored hash of a user, as `HMGET` returns it.
  abbrev pub stored : Bytes → Bytes → Option Bytes
  stored id f = L.hget w.store (user_key id) f

  user_get_reply :
      (id : Bytes)
      → takes_hash (L.kind w.store (user_key id)) ≡ true
      → command (user_get_words id) w
        ≡ (some (array (fields_of (stored id) (codes "pwd" ∷ codes "name" ∷ codes "mdn" ∷ []))), w)
  unfolding command
  user_get_reply id typed =
      rw (L.hmget_law w.store (user_key id) (codes "pwd" ∷ codes "name" ∷ codes "mdn" ∷ []) typed)

  -- What `redis_user_get` returns by the stored password.
  abbrev pub got_user : Bytes → Option Bytes → ℤ × User
  got_user id none = (Rc.redis, zero_user)
  got_user id (some pwd) = (
    Rc.ok,
    record {
      user_id = fit Size.user_id id;
      name = copy_text Size.name (stored id (codes "name"));
      password = fit Size.password pwd;
      mdn = copy_text Size.mdn (stored id (codes "mdn"));
    },
  )

  str_of-reply_of : (o : Option Bytes) → str_of (reply_of o) ≡ o
  str_of-reply_of none = refl
  str_of-reply_of (some s) = refl

  -- On a connected platform with the laws of Redis, `redis_user_get` on a key that holds no other type
  -- fails exactly if there is no password, and else returns the stored fields cut to their arrays.
  pub redis_user_get_lem :
      (id : Bytes) (out : User)
      → takes_hash (L.kind w.store (user_key id)) ≡ true
      → redis_user_get id out w ≡ (got_user id (stored id (codes "pwd")), w)
  unfolding redis_user_get
  redis_user_get_lem id out typed =
      ground (arith, user_get_reply id typed, str_of-reply_of (stored id (codes "pwd")))

  -- What the database holds behind the first command of `redis_user_save`, and behind both.
  abbrev pub store_user : User → P.Store
  store_user u = (P.redis_command (user_save_words P u) w.store).1

  abbrev pub saved_store : User → P.Store
  saved_store u = (P.redis_command (mdn_save_words u) (store_user u)).1

  pub redis_user_save_lem :
      (u : User)
      → is_empty u.user_id ≡ false
      → is_empty u.mdn ≡ false
      → takes_hash (L.kind w.store (user_key u.user_id)) ≡ true
      → redis_user_save u w ≡ (Rc.ok, record w { store = saved_store u })
  unfolding redis_user_save command
  redis_user_save_lem u ne ne' typed = ground (
    arith,
    (L.hset_reply w.store (user_key u.user_id) (user_pairs P u) typed).1,
    L.set_reply (store_user u) (mdn_key u.mdn) u.user_id,
  )

  pub mdn-ne-user : (a b : Bytes) → str_eq (mdn_key a) (user_key b) ≡ false
  unfolding mdn_key user_key fit str_eq
  mdn-ne-user a b = refl

  -- Behind the two commands of `redis_user_save` the user's key is a hash that holds the password, the
  -- name and the telephone number of the user, where the key held no other type before.
  pub saved_hget :
      (u : User)
      → takes_hash (L.kind w.store (user_key u.user_id)) ≡ true
      → (L.hget (saved_store u) (user_key u.user_id) (codes "pwd") ≡ some u.password)
        × (L.hget (saved_store u) (user_key u.user_id) (codes "name") ≡ some u.name)
        × (L.hget (saved_store u) (user_key u.user_id) (codes "mdn") ≡ some u.mdn)
        × (L.kind (saved_store u) (user_key u.user_id) ≡ hash)
  unfolding str_eq
  saved_hget u typed = (
    read (codes "pwd"),
    read (codes "name"),
    read (codes "mdn"),
    L.set_kind (store_user u) (mdn_key u.mdn) u.user_id (user_key u.user_id)
        ∙ rw (mdn-ne-user u.mdn u.user_id) (
            L.hset_kind w.store (user_key u.user_id) (user_pairs P u) (user_key u.user_id) typed
            ∙ rw (str_eq_self (user_key u.user_id))),
  )
    where
      read :
          (f : Bytes)
          → L.hget (saved_store u) (user_key u.user_id) f
            ≡ written (user_pairs P u) f (L.hget w.store (user_key u.user_id) f)
      read f =
          L.set_hget (store_user u) (mdn_key u.mdn) u.user_id (user_key u.user_id) f
          ∙ rw (mdn-ne-user u.mdn u.user_id) (
              L.hset_hget w.store (user_key u.user_id) (user_pairs P u) (user_key u.user_id) f typed
              ∙ rw (str_eq_self (user_key u.user_id)))
