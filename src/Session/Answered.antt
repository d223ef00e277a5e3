-- ===== src/Session/Answered.antt =====
-- What a request of the client comes to on the server, over the socket.
use zam_tok.Prelude.{
  ℕ, ◌<◌, ℤ, is_neg, true, false, [], ◌∷◌, ◌++◌, Option, some, Bytes, codes, ◌≡◌, refl, ap, ◌∙◌,
  arith, length,
}
use zam_tok.CString.{fit, str_eq}
use zam_tok.Codes.Rc
use zam_tok.Codes.Size
use zam_tok.Util.{Req}
use zam_tok.Step.{Result}
use zam_tok.Outcome.{returns}
use zam_tok.World.{Platform, World}
use zam_tok.Hdl.Request.{route_of, finish, dispatch, hdl_socket}
use zam_tok.Http.Helpers.{http_get_body}
use zam_tok.Http.Respond.{respond}
use zam_tok.Http.Respond.Sent.{status_line, result_status, result_text, InRange, respond-Answers}
use zam_tok.Http.Users.{is_method}
use zam_tok.Chat.Requests.{request, length-request}
use zam_tok.CString.{strn_eq}
use zam_tok.Hdl.Request.{Route, request_of}
use zam_tok.Chat.Routed.{spaceless, spaceless-Undelimited}
use zam_tok.Session.Wire.{NoNul, nul_free, nul_free-NoNul, at_once, posted, hdl_socket-dispatch}

-- A message that says a result: its status, and its text, cut to 1023 bytes.
pub record Says (message : Bytes) (r : Result (Option Bytes)) : Type 0 where
  pub headers : Bytes
  pub status_is : message ≡ status_line (result_status r) ++ headers
  pub body_is : http_get_body message ≡ fit Size.body_data (result_text r)

-- The world with one more message sent.
abbrev pub and_sent : {P : Platform} → ℤ → Bytes → World P → World P
and_sent fd message w = record w { sent = w.sent ++ (fd, message) ∷ [] }

module _ {P : Platform} (room : P.malloc ≡ true) (fd : ℤ) (up : is_neg fd ≡ false) where
  finish-ok :
      (out : ℤ × World P) (v : World P)
      → out.0 ≡ Rc.ok
      → out.1 ≡ v
      → finish out ≡ returns (Rc.ok, v)
  finish-ok (rc, w) v a b = rw (a, b) refl

  -- A handler whose steps come to a result sends it.
  pub told :
      (q : Req) (r : Result (Option Bytes)) (v : World P) (handled : ℤ × World P)
      → InRange r
      → handled ≡ respond fd q (r, v)
      → (m : Bytes) × (finish handled ≡ returns (Rc.ok, and_sent fd m v)) × Says m r
  told q r v handled h e =
      let a = respond-Answers room fd up q r v h in
      (
        a.message,
        ap finish e
            ∙ finish-ok (respond fd q (r, v)) (and_sent fd a.message v) a.code_ok a.sent_once,
        record { headers = a.headers; status_is = a.status_is; body_is = a.body_is },
      )

pub posted-is_method : (path text : Bytes) → is_method (codes "POST") 4 (posted path text) ≡ true
unfolding request_of strn_eq str_eq fit
posted-is_method path text = refl

-- What a request that the client sends comes to on the server: `hdl_socket` returns `ZT_RC_OK`, and one
-- message goes to the client, which says the result; the world is as the handler left it, but for that.
pub record Comes {P : Platform} (fuel : ℕ) (fd : ℤ) (sent : Option Bytes)
    (r : Result (Option Bytes)) (w v : World P) : Type 0 where
  pub request_text : Bytes
  pub message : Bytes
  pub is_sent : sent ≡ some request_text
  pub returned :
      hdl_socket fuel fd (at_once request_text) w ≡ returns (Rc.ok, and_sent fd message v)
  pub says : Says message r

module _ {P : Platform} (room : P.malloc ≡ true) (fuel : ℕ) (fd : ℤ) (up : is_neg fd ≡ false)
    (write : ℤ → Bytes → ℤ) (socket : ℤ) (open_ : is_neg socket ≡ false) where
  pub posted-Comes :
      (path body : Bytes) (route : Route) (w v : World P) (r : Result (Option Bytes))
      (sent : Option Bytes)
      → spaceless path ≡ true
      → nul_free path ≡ true
      → 0 < length path
      → length path < 64
      → NoNul body
      → length body < 512
      → route_of (posted path (request path body)) ≡ route
      → sent ≡ some (request path body)
      → (m : Bytes) × (dispatch fuel route fd
            (request path body)
            (posted path (request path body))
            w
          ≡ returns (Rc.ok, and_sent fd m v))
        × Says m r
      → Comes fuel fd sent r w v
  posted-Comes path body route w v r sent word nul more less plain short routed is_sent
        (m, done, says) =
      record {
        request_text = request path body;
        message = m;
        is_sent = is_sent;
        returned =
            hdl_socket-dispatch fuel fd up w path body route (more, spaceless-Undelimited path word)
              (omega arith) (nul_free-NoNul path nul) plain
              (omega (arith, length-request write socket open_ path body)) routed
            ∙ done;
        says = says;
      }
