-- ===== src/Chat/Requests.antt =====
-- The client's requests as the server's handlers read them, from the bytes that the client sends.
use zam_tok.CString.Search.{Free}
use zam_tok.Prelude.{
  ℕ, ◌+◌, ◌<◌, ℤ, is_neg, true, false, List, [], some, Bytes, codes, ◌≡◌, arith, length,
  length-append,
}
use zam_tok.CString.{decimal}
use zam_tok.CString.Format.{fit-fits}
use zam_tok.Codes.{ErrCode}
use zam_tok.Util.{Req, FieldSpec, http_bind_json_fields}
use zam_tok.Util.Response.{length-decimal}
use zam_tok.Step.{ok}
use zam_tok.World.{Platform, World}
use zam_tok.Redis.Keys.{User}
use zam_tok.Http.Helpers.{http_get_body}
use zam_tok.Http.Body.{http_get_body-http_request}
use zam_tok.Http.Respond.{bind_fields}
use zam_tok.Http.Users.{
  is_method, join_fields, login_fields, join_user, join_steps, login_user, login_steps,
}
use zam_tok.Chat.{
  http_request, socket_send_request_buf, post, join_json, login_json, chat_join, chat_login,
}
use zam_tok.Chat.Fields.{
  IsReadable, join_body, login_body, values, bound, bind-join_json, bind-login_json,
}

abbrev pub request : Bytes → Bytes → Bytes
request path body = http_request (codes "POST") path (codes "localhost:8080") body

module _ (write : ℤ → Bytes → ℤ) (socket : ℤ) (up : is_neg socket ≡ false) where
  pub post-request :
      (size : ℕ) (path body : Bytes)
      → length (request path body) < size
      → (post write socket size path body).1 ≡ some (request path body)
  unfolding post socket_send_request_buf
  post-request size path body fits = ground arith

  pub length-request :
      (path body : Bytes)
      → length body < 1024
      → length (request path body) < length path + length body + 150
  unfolding http_request
  length-request path body h = omega (
    arith,
    length-append {0} path,
    length-append {0} (decimal (length body)),
    length-decimal (length body) h,
  )

  -- On an open socket `chat_join` hands the whole sign-up request to `write`, uncut, for a user whose
  -- fields can be read back.
  pub chat_join-request :
      (u : User)
      → IsReadable [] (join_body u)
      → (chat_join write socket u).1 ≡ some (request (codes "/join") (join_json u))
  unfolding chat_join
  chat_join-request u (_, a, _, (_, b, _, (_, c, _, (_, d, _, _)))) =
      let short : length (join_json u) < 512 = omega (
        arith,
        a.fits,
        b.fits,
        c.fits,
        d.fits,
        length-append {0} u.user_id,
        length-append {0} u.name,
        length-append {0} u.password,
        length-append {0} u.mdn,
      ) in
      rw (up, fit-fits 512 (join_json u) short)
        (post-request 1024 (codes "/join") (join_json u)
          (omega (arith, length-request (codes "/join") (join_json u))))

  -- On an open socket `chat_login` hands the whole login request to `write`, uncut, for an id and a
  -- password that can be read back.
  pub chat_login-request :
      (user_id password : Bytes)
      → IsReadable [] (login_body user_id password)
      → (chat_login write socket user_id password).1
        ≡ some (request (codes "/login") (login_json user_id password))
  unfolding chat_login
  chat_login-request user_id password (_, a, _, (_, b, _, _)) =
      let short : length (login_json user_id password) < 256 =
        omega (arith, a.fits, b.fits, length-append {0} user_id, length-append {0} password) in
      rw (fit-fits 256 (login_json user_id password) short) (
        post-request 1024 (codes "/login") (login_json user_id password)
          (omega (arith, length-request (codes "/login") (login_json user_id password))))

pub http_get_body-request :
    (path body : Bytes) → Free b'\r' path → http_get_body (request path body) ≡ body
http_get_body-request path body h =
    http_get_body-http_request (codes "POST") path (codes "localhost:8080") body (omega arith) h
      (omega arith)

pub bind_fields-bound :
    {S : Type 0} (body : Bytes) (fs : List FieldSpec) (outs : List Bytes) (s : S)
    → http_bind_json_fields body fs 200 ErrCode.invalid_params
      ≡ bound outs 200 ErrCode.invalid_params
    → bind_fields body fs s ≡ (ok outs, s)
unfolding bind_fields
bind_fields-bound body fs outs s e = ground arith

module _ {P : Platform} (q : Req) (posted : is_method (codes "POST") 4 q ≡ true) (w : World P) where
  -- For a POST request, the steps of `http_join` on what `chat_join` sends are a sign-up of the very
  -- user that the client sent, where its fields can be read back.
  pub join_steps-request :
      (u : User)
      → IsReadable [] (join_body u)
      → join_steps (request (codes "/join") (join_json u)) q w ≡ join_user u w
  unfolding join_steps
  join_steps-request u h =
      let body = http_get_body-request (codes "/join") (join_json u) (omega arith) in
      ground (
        arith,
        body,
        bind_fields-bound (join_json u) join_fields (values (join_body u)) w
            (bind-join_json u 200 ErrCode.invalid_params h),
      )

  -- For a POST request, the steps of `http_login` on what `chat_login` sends are a login with the id and
  -- the password that the client sent, where they can be read back.
  pub login_steps-request :
      (user_id password : Bytes)
      → IsReadable [] (login_body user_id password)
      → login_steps (request (codes "/login") (login_json user_id password)) q w
        ≡ login_user user_id password w
  unfolding login_steps
  login_steps-request user_id password h =
      let body =
        http_get_body-request (codes "/login") (login_json user_id password) (omega arith) in
      ground (
        arith,
        body,
        bind_fields-bound (login_json user_id password) login_fields
            (values (login_body user_id password)) w
            (bind-login_json user_id password 200 ErrCode.invalid_params h),
      )
