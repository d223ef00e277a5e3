-- ===== src/Session.antt =====
-- The client and the server together: what the client's user types, sent by src/CLIENT/zt_chat.c, and
-- carried out by src/SERVER/zt_http.c on the database.
pub mod Rooms
pub mod Wire
pub mod Answered
pub mod Served
pub mod Opened
use zam_tok.Prelude.{
  ◌<◌, ℤ, is_neg, true, false, [], ◌∷◌, Option, none, some, Bytes, codes, ◌≡◌, refl, ◌∙◌, arith,
  if◌then◌else◌, length,
}
use zam_tok.CString.{str_eq}
use zam_tok.Codes.{ErrCode}
use zam_tok.Util.{Req}
use zam_tok.Step.{Result, ok, fail}
use zam_tok.World.{Platform, World}
use zam_tok.Redis.Keys.{User, is_empty, user_key, mdn_key}
use zam_tok.Redis.Laws.{IsRedis, is_absent}
use zam_tok.Http.Users.{is_method, join_data, join_steps, login_steps}
use zam_tok.Http.Users.Accounts.{IsSignup, joined-login}
use zam_tok.Chat.{chat_join, chat_login}
use zam_tok.Chat.Fields.{IsReadable, join_body, login_body}
use zam_tok.Chat.Requests.{
  chat_join-request, chat_login-request, join_steps-request, login_steps-request,
}

pub not_empty : (s : Bytes) → 0 < length s → is_empty s ≡ false
not_empty [] h = absurd (omega arith)
not_empty (c ∷ s) h = refl

pub signup : (u : User) → IsReadable [] (join_body u) → IsSignup u
signup u (_, a, _, (_, b, _, (_, c, _, (_, d, _, _)))) = record {
  user_id_given = not_empty u.user_id a.positive;
  mdn_given = not_empty u.mdn d.positive;
  password_fits = c.fits;
}

-- A run: a sign-up request, and then a login request, each as the client sends it and the server
-- reads it.
pub record SignsIn {P : Platform} (write : ℤ → Bytes → ℤ) (socket : ℤ) (u : User) (password : Bytes)
    (q q' : Req) (w : World P) (outcome : Result (Option Bytes)) : Type 0 where
  pub join_request : Bytes
  pub login_request : Bytes
  pub joined : World P
  pub join_sent : (chat_join write socket u).1 ≡ some join_request
  pub login_sent : (chat_login write socket u.user_id password).1 ≡ some login_request
  pub join_done : join_steps join_request q w ≡ (ok (some (join_data u)), joined)
  pub login_done : login_steps login_request q' joined ≡ (outcome, joined)

-- On a connected platform with the laws of Redis and an open client socket, a user whose fields can be
-- read back and whose id and telephone number are not taken signs up: the server's steps on the POST
-- request that `chat_join` sends store the user, and those on the one that `chat_login` sends under that
-- id then succeed with the same password, and are refused as a wrong password with another.
pub signs_in :
    {P : Platform} (L : IsRedis P) (w : World P) (write : ℤ → Bytes → ℤ) (socket : ℤ) (u : User)
    (password : Bytes) (q q' : Req)
    → w.connected ≡ true
    → is_neg socket ≡ false
    → is_method (codes "POST") 4 q ≡ true
    → is_method (codes "POST") 4 q' ≡ true
    → IsReadable [] (join_body u)
    → IsReadable [] (login_body u.user_id password)
    → is_absent (L.kind w.store (user_key u.user_id)) ≡ true
    → is_absent (L.kind w.store (mdn_key u.mdn)) ≡ true
    → SignsIn write socket u password q q' w
        (if str_eq u.password password then ok none else fail 401 ErrCode.wrong_password)
signs_in L w write socket u password q q' up open_ posted posted' hu hl fresh fresh_mdn =
    let (w', joins, logs) = joined-login L w up u password (signup u hu) fresh fresh_mdn in
    record {
      join_request = _;
      login_request = _;
      joined = w';
      join_sent = chat_join-request write socket open_ u hu;
      login_sent = chat_login-request write socket open_ u.user_id password hl;
      join_done = join_steps-request q posted w u hu ∙ joins;
      login_done = login_steps-request q' posted' w' u.user_id password hl ∙ logs;
    }
