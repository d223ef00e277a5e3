-- ===== src/Session/Wire.antt =====
-- A request of the client (src/CLIENT/zt_chat.c) on the wire: `hdl_socket` of src/SERVER/zt_hdl.c hands it to
-- its handler whole.
use zam_tok.Prelude.{
  ℕ, ◌<◌, ℤ, is_neg, Bool, true, false, not, ◌&&◌, [], ◌∷◌, ◌++◌, some, Bytes, codes, ◌≡◌, ◌≢◌,
  refl, ap, ◌∙◌, arith, ◌==◌, leb, length, All, All-append,
}
use zam_tok.CString.{fit, take_until, decimal}
use zam_tok.CString.Search.{Free}
use zam_tok.CString.Format.{IsDigit, decimal-IsDigit}
use zam_tok.Util.{Req}
use zam_tok.World.{Platform, World}
use zam_tok.Redis.Keys.{User}
use zam_tok.Hdl.Request.{
  Read, received, got, receive, request_line, request_of, Route, route_of, dispatch, handle_text,
  handle_receipt, hdl_socket,
}
use zam_tok.Chat.{http_request, join_json, login_json}
use zam_tok.Chat.Requests.{request}
use zam_tok.Chat.Routed.{IsWord, request_line-http_request, spaceless-Undelimited}

-- A text without a NUL, which is what a C string is, and a test for it.
abbrev pub NoNul : Bytes → Type 0
NoNul = Free 0

abbrev pub nul_free : Bytes → Bool
nul_free [] = true
nul_free (c ∷ s) = not (c == 0) && nul_free s

pub nul_free-NoNul : (s : Bytes) → nul_free s ≡ true → NoNul s
nul_free-NoNul [] e = tt
nul_free-NoNul (c ∷ s) e = (ground arith, nul_free-NoNul s (ground arith))

append-NoNul : (s t : Bytes) → NoNul s → NoNul t → NoNul (s ++ t)
append-NoNul s t h k = All-append (λ c. c ≢ 0) s t h k

-- A constant, a value, and the rest.
pub piece-NoNul :
    (before value rest : Bytes)
    → nul_free before ≡ true
    → NoNul value
    → NoNul rest
    → NoNul (before ++ (value ++ rest))
piece-NoNul before value rest b v r =
    append-NoNul before (value ++ rest) (nul_free-NoNul before b) (append-NoNul value rest v r)

digits-NoNul : (s : Bytes) → All IsDigit s → NoNul s
digits-NoNul [] h = tt
digits-NoNul (c ∷ s) (d, h) = (omega arith, digits-NoNul s h)

request-NoNul : (path body : Bytes) → NoNul path → NoNul body → NoNul (request path body)
unfolding http_request
request-NoNul path body p b = piece-NoNul (codes "POST ") path _ refl p (
    piece-NoNul
      (codes
        " HTTP/1.1\r\nHost: localhost:8080\r\nContent-Type: application/json\r\nContent-Length: ")
      (decimal (length body)) _ refl (digits-NoNul _ (decimal-IsDigit (length body)))
      (append-NoNul (codes "\r\n\r\n") body (nul_free-NoNul (codes "\r\n\r\n") refl) b))

pub join_json-NoNul :
    (u : User)
    → NoNul u.user_id
    → NoNul u.name
    → NoNul u.password
    → NoNul u.mdn
    → NoNul (join_json u)
join_json-NoNul u a b c d = piece-NoNul (codes "{\"user_id\": \"") u.user_id _ refl a (
    piece-NoNul (codes "\", \"name\": \"") u.name _ refl b (
      piece-NoNul (codes "\", \"password\": \"") u.password _ refl c
        (piece-NoNul (codes "\", \"mdn\": \"") u.mdn _ refl d (nul_free-NoNul (codes "\"}") refl))))

pub login_json-NoNul :
    (user_id password : Bytes)
    → NoNul user_id
    → NoNul password
    → NoNul (login_json user_id password)
login_json-NoNul user_id password a b = piece-NoNul (codes "{\"user_id\": \"") user_id _ refl a (
    piece-NoNul (codes "\", \"password\": \"") password _ refl b
      (nul_free-NoNul (codes "\"}") refl))

take_until-NoNul : (s : Bytes) → NoNul s → take_until (λ c. c == 0) s ≡ s
unfolding take_until
take_until-NoNul [] h = refl
take_until-NoNul (c ∷ s) (p, h) = ground (arith, take_until-NoNul s h)

-- The request as one `read` brings it.
abbrev pub at_once : Bytes → ℕ → Read
at_once text i = received text

-- The request that the server makes of it.
abbrev pub posted : Bytes → Bytes → Req
posted path text = request_of text (codes "POST", path, codes "HTTP/1.1")

receive-at_once : (c : ℕ) (s : Bytes) → receive 3 0 (at_once (c ∷ s)) ≡ got (c ∷ s)
unfolding receive
receive-at_once c s = refl

module _ {P : Platform} (fuel : ℕ) (fd : ℤ) (up : is_neg fd ≡ false) (w : World P) where
  handle_text-dispatch :
      (text path : Bytes) (r : Route)
      → request_line (fit 1024 text) ≡ some (codes "POST", path, codes "HTTP/1.1")
      → route_of (posted path text) ≡ r
      → handle_text fuel fd text w ≡ dispatch fuel r fd text (posted path text) w
  unfolding handle_text
  handle_text-dispatch text path r line route = rw (line, handle_text) (rw route refl)

  handle_receipt-text :
      (text : Bytes)
      → NoNul text
      → length text < 1024
      → handle_receipt fuel fd (got text) w ≡ handle_text fuel fd text w
  unfolding handle_receipt
  handle_receipt-text text plain short =
      let fits : leb 1024 (length text) ≡ false = ground arith in
      rw fits (rw (take_until-NoNul text plain) refl)

  -- On an open socket, a POST request that `read` brings at once, of less than 1024 bytes and without a NUL,
  -- is handed to the handler of its route.
  pub hdl_socket-dispatch :
      (path body : Bytes) (r : Route)
      → IsWord path
      → length path < 128
      → NoNul path
      → NoNul body
      → length (request path body) < 1024
      → route_of (posted path (request path body)) ≡ r
      → hdl_socket fuel fd (at_once (request path body)) w
        ≡ dispatch fuel r fd (request path body) (posted path (request path body)) w
  unfolding hdl_socket
  hdl_socket-dispatch path body r word short p b fits route =
      let text = request path body in
      rw up (ap (λ x. handle_receipt fuel fd x w) (unfold http_request in receive-at_once _ _))
      ∙ handle_receipt-text text (request-NoNul path body p b) fits
      ∙ handle_text-dispatch text path r
          (request_line-http_request (codes "POST") path (codes "localhost:8080") body
            (omega arith, spaceless-Undelimited (codes "POST") refl) word (omega arith))
          route
