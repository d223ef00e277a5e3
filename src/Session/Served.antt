-- ===== src/Session/Served.antt =====
-- A sign-up and a login over the socket: from what the client's user types (src/CLIENT/zt_chat.c) to the
-- messages that come back and the database that is left (src/SERVER/zt_hdl.c, src/SERVER/zt_http.c).
use zam_tok.Prelude.{
  ℕ, ◌<◌, ℤ, is_neg, Bool, true, false, [], Option, none, some, Bytes, codes, ◌≡◌, refl, ap, ◌∙◌,
  arith, if◌then◌else◌, length, length-append,
}
use zam_tok.CString.{fit, str_eq}
use zam_tok.CString.Format.{fit-fits}
use zam_tok.Codes.Rc
use zam_tok.Codes.Size
use zam_tok.Codes.{ErrCode}
use zam_tok.Util.{Req}
use zam_tok.Step.{Result, ok, fail}
use zam_tok.Outcome.{returns}
use zam_tok.World.{Platform, World}
use zam_tok.Redis.Keys.{User, user_key, mdn_key}
use zam_tok.Redis.Laws.{IsRedis, is_absent, takes_hash, takes_hash-absent}
use zam_tok.Redis.Users.Replies.{saved_store, saved_hget}
use zam_tok.Hdl.Request.{join, login, route_of, dispatch}
use zam_tok.Http.Respond.{respond}
use zam_tok.Http.Respond.Sent.{InRange}
use zam_tok.Http.Users.{
  join_data, join_user, login_user, join_steps, login_steps, http_join, http_login,
}
use zam_tok.Http.Users.Accounts.{join_user_lem, login_user_lem}
use zam_tok.Chat.{chat_join, chat_login, join_json, login_json}
use zam_tok.Chat.Fields.{IsReadable, join_body, login_body}
use zam_tok.Chat.Requests.{
  request, chat_join-request, chat_login-request, join_steps-request, login_steps-request,
}
use zam_tok.CString.{strn_eq}
use zam_tok.Hdl.Request.{request_of}
use zam_tok.Session.{signup}
use zam_tok.Session.Wire.{NoNul, join_json-NoNul, login_json-NoNul, posted}
use zam_tok.Session.Answered.{Says, and_sent, told, posted-is_method, Comes, posted-Comes}

module _ {P : Platform} (room : P.malloc ≡ true) (fd : ℤ) (up : is_neg fd ≡ false) where
  join-told :
      (fuel : ℕ) (buf : Bytes) (q : Req) (w v : World P) (r : Result (Option Bytes))
      → InRange r
      → join_steps buf q w ≡ (r, v)
      → (m : Bytes) × (dispatch fuel join fd buf q w ≡ returns (Rc.ok, and_sent fd m v)) × Says m r
  unfolding dispatch http_join
  join-told fuel buf q w v r h e =
      told room fd up q r v (http_join fd buf q w) h (rw up (ap (respond fd q) e))

  login-told :
      (fuel : ℕ) (buf : Bytes) (q : Req) (w v : World P) (r : Result (Option Bytes))
      → InRange r
      → login_steps buf q w ≡ (r, v)
      → (m : Bytes) × (dispatch fuel login fd buf q w ≡ returns (Rc.ok, and_sent fd m v)) × Says m r
  unfolding dispatch http_login
  login-told fuel buf q w v r h e =
      told room fd up q r v (http_login fd buf q w) h (rw up (ap (respond fd q) e))

join_routed : (text : Bytes) → route_of (posted (codes "/join") text) ≡ join
unfolding route_of request_of str_eq strn_eq fit
join_routed text = refl

login_routed : (text : Bytes) → route_of (posted (codes "/login") text) ≡ login
unfolding route_of request_of str_eq strn_eq fit
login_routed text = refl

-- A user and a password as C strings.
pub record AreStrings (u : User) (password : Bytes) : Type 0 where
  pub user_id : NoNul u.user_id
  pub name : NoNul u.name
  pub own_password : NoNul u.password
  pub mdn : NoNul u.mdn
  pub given : NoNul password

join_json-short : (u : User) → IsReadable [] (join_body u) → length (join_json u) < 200
join_json-short u (_, a, _, (_, b, _, (_, c, _, (_, d, _, _)))) = omega (
  arith,
  a.fits,
  b.fits,
  c.fits,
  d.fits,
  length-append {0} u.user_id,
  length-append {0} u.name,
  length-append {0} u.password,
  length-append {0} u.mdn,
)

login_json-short :
    (user_id password : Bytes)
    → IsReadable [] (login_body user_id password)
    → length (login_json user_id password) < 200
login_json-short user_id password (_, a, _, (_, b, _, _)) =
    omega (arith, a.fits, b.fits, length-append {0} user_id, length-append {0} password)

module _ {P : Platform} (room : P.malloc ≡ true) (fuel : ℕ) (fd : ℤ) (up : is_neg fd ≡ false)
    (write : ℤ → Bytes → ℤ) (socket : ℤ) (open_ : is_neg socket ≡ false) where
  join-Comes :
      (u : User) (w v : World P) (r : Result (Option Bytes))
      → IsReadable [] (join_body u)
      → NoNul (join_json u)
      → InRange r
      → join_user u w ≡ (r, v)
      → Comes fuel fd (chat_join write socket u).1 r w v
  join-Comes u w v r readable plain range joins =
      let short = join_json-short u readable in
      posted-Comes room fuel fd up write socket open_ (codes "/join") (join_json u) join w v r _
        refl refl (omega arith) (omega arith) plain (omega arith)
        (join_routed (request (codes "/join") (join_json u)))
        (chat_join-request write socket open_ u readable)
        (join-told room fd up fuel _ _ w v r range
          (join_steps-request _ (posted-is_method (codes "/join") _) w u readable ∙ joins))

  login-Comes :
      (user_id password : Bytes) (w v : World P) (r : Result (Option Bytes))
      → IsReadable [] (login_body user_id password)
      → NoNul (login_json user_id password)
      → InRange r
      → login_user user_id password w ≡ (r, v)
      → Comes fuel fd (chat_login write socket user_id password).1 r w v
  login-Comes user_id password w v r readable plain range logs =
      let short = login_json-short user_id password readable in
      posted-Comes room fuel fd up write socket open_ (codes "/login") (login_json user_id password)
        login w v r _ refl refl (omega arith) (omega arith) plain (omega arith)
        (login_routed (request (codes "/login") (login_json user_id password)))
        (chat_login-request write socket open_ user_id password readable)
        (login-told room fd up fuel _ _ w v r range (
          login_steps-request _ (posted-is_method (codes "/login") _) w user_id password readable
          ∙ logs))

-- A run: a sign-up and a login, as the client sends them, one after the other to the server.
pub record SignsInServed {P : Platform} (fuel : ℕ) (fd : ℤ) (write : ℤ → Bytes → ℤ) (socket : ℤ)
    (u : User) (password : Bytes) (w : World P) : Type 0 where
  pub store : P.Store
  pub joins :
      Comes fuel fd
        (chat_join write socket u).1
        (ok (some (join_data u)))
        w
        (record w { store = store })
  pub logs :
      Comes fuel fd
        (chat_login write socket u.user_id password).1
        (if str_eq u.password password then ok none else fail 401 ErrCode.wrong_password)
        (and_sent fd joins.message (record w { store = store }))
        (and_sent fd joins.message (record w { store = store }))

login-InRange :
    (b : Bool) → InRange {A = Option Bytes} (if b then ok none else fail 401 ErrCode.wrong_password)
login-InRange true = tt
login-InRange false = (omega arith, omega arith)

-- On a connected platform with the laws of Redis where `malloc` succeeds, and on open sockets, a user whose
-- fields can be read back and hold no NUL and whose id and telephone number are not taken signs up over
-- the socket: `hdl_socket` takes the request that `chat_join` sends, if one `read` brings it, returns
-- `ZT_RC_OK`, and sends one message, with status 200 and the user's data. The login that `chat_login`
-- then sends with the same id and a password that can be read back and holds no NUL comes to one message
-- without data, with status 200 if the password is the same and 401 otherwise, and leaves the database as
-- it is.
pub signs_in_served :
    {P : Platform} (L : IsRedis P) (w : World P) (room : P.malloc ≡ true) (fuel : ℕ) (fd : ℤ)
    (write : ℤ → Bytes → ℤ) (socket : ℤ) (u : User) (password : Bytes)
    → w.connected ≡ true
    → is_neg fd ≡ false
    → is_neg socket ≡ false
    → IsReadable [] (join_body u)
    → IsReadable [] (login_body u.user_id password)
    → AreStrings u password
    → is_absent (L.kind w.store (user_key u.user_id)) ≡ true
    → is_absent (L.kind w.store (mdn_key u.mdn)) ≡ true
    → SignsInServed fuel fd write socket u password w
signs_in_served {P} L w room fuel fd write socket u password up open_fd open_ hu hl h fresh
      fresh_mdn =
    let is_signup = signup u hu in
    let stored = saved_store L w up u in
    let back = saved_hget L w up u (takes_hash-absent _ fresh) in
    let w' : World P = record w { store = stored } in
    let joins =
      join-Comes room fuel fd open_fd write socket open_ u w w' (ok (some (join_data u))) hu
        (join_json-NoNul u h.user_id h.name h.own_password h.mdn) tt
        (join_user_lem L w up u is_signup ∙ rw (fresh, fresh_mdn)) in
    let w1 = and_sent fd joins.message w' in
    record {
      store = stored;
      joins = joins;
      logs =
          login-Comes room fuel fd open_fd write socket open_ u.user_id password w1 w1 _ hl
            (login_json-NoNul u.user_id password h.user_id h.given)
            (login-InRange (str_eq u.password password))
            (login_user_lem L w1 up u.user_id password (ap takes_hash back.3)
              ∙ rw (back.0, fit-fits Size.password u.password is_signup.password_fits));
    }
