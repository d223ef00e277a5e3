-- ===== src/Http/Users/Accounts.antt =====
-- Signing up and logging in, on a connected platform that keeps the laws of Redis.
use zam_tok.CString.Format.{fit-fits}
use zam_tok.Prelude.{
  ◌<◌, Bool, true, false, Option, none, some, Bytes, codes, ◌≡◌, ap, ◌∙◌, arith, if◌then◌else◌,
  length,
}
use zam_tok.CString.{str_eq, fit}
use zam_tok.Codes.Size
use zam_tok.Codes.{ErrCode}
use zam_tok.Step.{Result, ok, fail}
use zam_tok.World.{Platform, World}
use zam_tok.Redis.Keys.{User, zero_user, is_empty, user_key, mdn_key}
use zam_tok.Redis.Users.Replies.{
  redis_user_exists_lem, redis_mdn_exists_lem, redis_user_get_lem, redis_user_save_lem, saved_hget,
  saved_store,
}
use zam_tok.Redis.Laws.{takes_hash-absent, IsRedis, is_absent, takes_hash}
use zam_tok.Http.Users.{join_data, join_user, login_user}

-- A user that `http_join` can have read: no field is empty, and each fits its array.
pub record IsSignup (u : User) : Type 0 where
  pub user_id_given : is_empty u.user_id ≡ false
  pub mdn_given : is_empty u.mdn ≡ false
  pub password_fits : length u.password < Size.password

-- `login_user`, by the password that is stored under the user's id.
abbrev pub login_result : Option Bytes → Bytes → Result (Option Bytes)
login_result none p = fail 401 ErrCode.user_not_found
login_result (some pwd) p =
    if str_eq (fit Size.password pwd) p then ok none else fail 401 ErrCode.wrong_password

module _ {P : Platform} (L : IsRedis P) (w : World P) (up : w.connected ≡ true) where
  -- On a connected platform with the laws of Redis, where the user's key holds no other type, a login
  -- succeeds exactly with the password that is stored, cut to 15 bytes; an unknown user and a wrong
  -- password are refused with 401, and the world is left as it was.
  pub login_user_lem :
      (id p : Bytes)
      → takes_hash (L.kind w.store (user_key id)) ≡ true
      → login_user id p w ≡ (login_result (L.hget w.store (user_key id) (codes "pwd")) p, w)
  unfolding login_user
  login_user_lem id p typed = ground (arith, redis_user_get_lem L w up id zero_user typed)

module _ {P : Platform} (L : IsRedis P) (w : World P) (up : w.connected ≡ true) where
  -- What a sign-up answers, and what it leaves, by the keys that are there before.
  abbrev pub join_outcome : User → Bool → Bool → Result (Option Bytes) × World P
  join_outcome u no_user no_mdn =
      if no_user
      then (if no_mdn
          then (ok (some (join_data u)), record w { store = saved_store L w up u })
          else (fail 409 ErrCode.mdn_already_exists, w))
      else (fail 409 ErrCode.user_already_exists, w)

  -- On a connected platform with the laws of Redis, a sign-up with an id and a telephone number is
  -- refused with 409 if the id is taken, or else if the telephone number is, and then nothing is stored;
  -- otherwise the user and the number are stored and the answer names them.
  pub join_user_lem :
      (u : User)
      → IsSignup u
      → join_user u w
        ≡ join_outcome u
            (is_absent (L.kind w.store (user_key u.user_id)))
            (is_absent (L.kind w.store (mdn_key u.mdn)))
  unfolding join_user
  join_user_lem u h = ground (
    arith,
    redis_user_exists_lem L w up u.user_id h.user_id_given,
    redis_mdn_exists_lem L w up u.mdn h.mdn_given,
    redis_user_save_lem L w up u h.user_id_given h.mdn_given,
    takes_hash-absent (L.kind w.store (user_key u.user_id)),
  )

  -- On a connected platform with the laws of Redis, a sign-up under an id and a telephone number that
  -- are not taken succeeds, and a login under that id then succeeds without data with the password of the
  -- sign-up, is refused as a wrong password with any other, and stores nothing either way.
  pub joined-login :
      (u : User) (p : Bytes)
      → IsSignup u
      → is_absent (L.kind w.store (user_key u.user_id)) ≡ true
      → is_absent (L.kind w.store (mdn_key u.mdn)) ≡ true
      → (w' : World P) × (join_user u w ≡ (ok (some (join_data u)), w'))
        × (login_user u.user_id p w'
            ≡ ((if str_eq u.password p then ok none else fail 401 ErrCode.wrong_password), w'))
  joined-login u p h fresh fresh_mdn =
      let w' : World P = record w { store = saved_store L w up u } in
      let back = saved_hget L w up u (takes_hash-absent _ fresh) in
      (
        w',
        join_user_lem u h ∙ rw (fresh, fresh_mdn),
        login_user_lem L w' up u.user_id p (ap takes_hash back.3)
            ∙ rw (back.0, fit-fits Size.password u.password h.password_fits),
      )
