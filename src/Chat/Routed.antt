-- ===== src/Chat/Routed.antt =====
-- The requests of src/CLIENT/zt_chat.c as `hdl_socket` of src/SERVER/zt_hdl.c takes them apart: the request
-- line, and where the request goes.
use zam_tok.Prelude.{
  ℕ, ◌+◌, zero, suc, ◌≤◌, ◌<◌, Bool, true, false, not, ◌&&◌, [], ◌∷◌, ◌++◌, Option, none, some,
  Bytes, codes, ◌≡◌, refl, ap, ◌∙◌, arith, ◌==◌, length, take, append_assoc, length-append, All,
  All-take, All-append,
}
use zam_tok.CString.{decimal, str_eq, strn_eq, fit, take_until, drop_until, strtok, one_of}
use zam_tok.CString.Format.{length-fit}
use zam_tok.Chat.{http_request}
use zam_tok.Hdl.Request.{
  request_line, request_of, Route, join, login, create, search, join_room, list_rooms, list_friends,
  invite, route_of,
}

-- Bytes that no delimiter is among.
abbrev pub Undelimited : (ℕ → Bool) → Bytes → Type 0
Undelimited d = All (λ c. d c ≡ false)

take_until-stop :
    (d : ℕ → Bool) (s : Bytes) (c : ℕ) (r : Bytes)
    → Undelimited d s
    → d c ≡ true
    → (take_until d (s ++ c ∷ r) ≡ s) × (drop_until d (s ++ c ∷ r) ≡ c ∷ r)
unfolding take_until drop_until
take_until-stop d [] c r h e = ground arith
take_until-stop d (x ∷ s) c r (p, h) e = ground (arith, take_until-stop d s c r h e)

-- A token, and the text behind its delimiter.
strtok-token :
    (d : ℕ → Bool) (s : Bytes) (c : ℕ) (r : Bytes)
    → 0 < length s
    → Undelimited d s
    → d c ≡ true
    → strtok d (s ++ c ∷ r) ≡ some (s, r)
unfolding strtok
strtok-token d [] c r g h e = absurd (omega arith)
strtok-token d (x ∷ s) c r g (p, h) e =
    let (taken, left) = take_until-stop d s c r h e in rw (p, taken, left) refl

-- A word of the request line.
abbrev pub IsWord : Bytes → Type 0
IsWord s = (0 < length s) × Undelimited (one_of (codes " ")) s

request_line-words :
    (method path version t : Bytes)
    → IsWord method
    → IsWord path
    → 0 < length version
    → Undelimited (one_of (codes "\r\n")) version
    → request_line (method ++ b' ' ∷ (path ++ b' ' ∷ (version ++ b'\r' ∷ t)))
      ≡ some (method, path, version)
unfolding request_line one_of
request_line-words method path version t (g, h) (g', h') g'' h'' =
    rw
      (
        strtok-token (one_of (codes " ")) method b' ' (path ++ b' ' ∷ (version ++ b'\r' ∷ t)) g h
            refl,
        request_line,
        strtok-token (one_of (codes " ")) path b' ' (version ++ b'\r' ∷ t) g' h' refl,
        request_line,
        strtok-token (one_of (codes "\r\n")) version b'\r' t g'' h'' refl,
      )
      refl

-- A buffer that has room for the start of a text holds all of it.
take-append_more : (n : ℕ) (a b : Bytes) → length a ≤ n → (t : Bytes) × (take n (a ++ b) ≡ a ++ t)
take-append_more n [] b h = (take n b, refl)
take-append_more zero (x ∷ a) b h = absurd (omega arith)
take-append_more (suc n) (x ∷ a) b h =
    let (t, e) = take-append_more n a b (omega arith) in (t, ap (◌∷◌ x) e)

version-Undelimited : Undelimited (one_of (codes "\r\n")) (codes "HTTP/1.1")
unfolding one_of
version-Undelimited = (refl, (refl, (refl, (refl, (refl, (refl, (refl, (refl, tt))))))))

-- The request line in the buffer of `hdl_socket`.
pub request_line-http_request :
    (method path host body : Bytes)
    → IsWord method
    → IsWord path
    → length method + length path < 1000
    → request_line (fit 1024 (http_request method path host body))
      ≡ some (method, path, codes "HTTP/1.1")
unfolding http_request fit
request_line-http_request method path host body m p short =
    let start : Bytes = method ++ b' ' ∷ (path ++ codes " HTTP/1.1\r") in
    let rest : Bytes =
      codes "\nHost: "
      ++ (host
          ++ (codes "\r\nContent-Type: application/json\r\nContent-Length: "
              ++ (decimal (length body) ++ (codes "\r\n\r\n" ++ body)))) in
    let (t, e) =
      take-append_more 1023 start rest
        (omega (arith, length-append {0} method, length-append {0} path, short)) in
    let regrouped : http_request method path host body ≡ start ++ rest =
      rw (append_assoc, append_assoc) refl in
    let cut : take 1023 (http_request method path host body)
        ≡ method ++ b' ' ∷ (path ++ b' ' ∷ (codes "HTTP/1.1" ++ b'\r' ∷ t)) =
      ap (take 1023) regrouped ∙ e ∙ rw (append_assoc, append_assoc) refl in
    ap request_line cut
    ∙ request_line-words method path (codes "HTTP/1.1") t m p (omega arith) version-Undelimited

-- Where `hdl_socket` hands a text to, if it has a request line.
abbrev pub routed : Bytes → Option Route
routed text = elim (request_line (fit 1024 text)) [
  | none ↦ none
  | some line ↦ some (route_of (request_of text line))
]

routed-http_request :
    (method path host body : Bytes) (r : Route)
    → IsWord method
    → IsWord path
    → length method + length path < 1000
    → route_of (request_of (http_request method path host body) (method, path, codes "HTTP/1.1"))
      ≡ r
    → routed (http_request method path host body) ≡ some r
routed-http_request method path host body r m p short e =
    rw (request_line-http_request method path host body m p short, routed) (ap some e)

-- A request of the client without a body, and one with a body.
abbrev pub get_request : Bytes → Bytes
get_request path = http_request (codes "GET") path (codes "localhost") []

abbrev pub post_request : Bytes → Bytes → Bytes
post_request path body = http_request (codes "POST") path (codes "localhost:8080") body

-- A text without a space, by its bytes.
abbrev pub spaceless : Bytes → Bool
spaceless [] = true
spaceless (c ∷ s) = not (c == b' ') && spaceless s

pub spaceless-Undelimited : (s : Bytes) → spaceless s ≡ true → Undelimited (one_of (codes " ")) s
unfolding one_of
spaceless-Undelimited [] e = tt
spaceless-Undelimited (c ∷ s) e = (ground arith, spaceless-Undelimited s (ground arith))

routed-get :
    (path : Bytes) (r : Route)
    → IsWord path
    → length path < 128
    → route_of (request_of (get_request path) (codes "GET", path, codes "HTTP/1.1")) ≡ r
    → routed (get_request path) ≡ some r
routed-get path r p short e =
    routed-http_request (codes "GET") path (codes "localhost") [] r
      (omega arith, spaceless-Undelimited (codes "GET") refl) p (omega (arith, short)) e

routed-post :
    (path body : Bytes) (r : Route)
    → 0 < length path
    → spaceless path ≡ true
    → length path < 128
    → route_of (request_of (post_request path body) (codes "POST", path, codes "HTTP/1.1")) ≡ r
    → routed (post_request path body) ≡ some r
routed-post path body r g p short e =
    routed-http_request (codes "POST") path (codes "localhost:8080") body r
      (omega arith, spaceless-Undelimited (codes "POST") refl) (g, spaceless-Undelimited path p)
      (omega (arith, short)) e

-- A path with an id, as `snprintf` cuts it.
path-IsWord :
    (c : ℕ) (before id : Bytes)
    → Undelimited (one_of (codes " ")) (c ∷ before)
    → Undelimited (one_of (codes " ")) id
    → IsWord (fit 128 (c ∷ (before ++ id)))
unfolding fit
path-IsWord c before id h k =
    (omega arith, All-take _ 127 (c ∷ (before ++ id)) (All-append _ (c ∷ before) id h k))

length-path : (s : Bytes) → length (fit 128 s) < 128
length-path s = length-fit 128 s (omega arith)

-- Whatever follows the request line, and for an id without spaces, each request of the client goes to the
-- handler that it is meant for.
pub client_routes :
    (body id : Bytes)
    → Undelimited (one_of (codes " ")) id
    → (routed (post_request (codes "/join") body) ≡ some join)
      × (routed (post_request (codes "/login") body) ≡ some login)
      × (routed (post_request (codes "/room") body) ≡ some create)
      × (routed (post_request (codes "/room/join") body) ≡ some join_room)
      × (routed (post_request (codes "/room/invite") body) ≡ some invite)
      × (routed (get_request (codes "/rooms")) ≡ some list_rooms)
      × (routed (get_request (fit 128 (codes "/room?id=" ++ id))) ≡ some search)
      × (routed (get_request (fit 128 (codes "/friends?user_id=" ++ id))) ≡ some list_friends)
unfolding route_of request_of str_eq strn_eq fit one_of
client_routes body id h = (
  routed-post (codes "/join") body join (omega arith) refl (omega arith) refl,
  routed-post (codes "/login") body login (omega arith) refl (omega arith) refl,
  routed-post (codes "/room") body create (omega arith) refl (omega arith) refl,
  routed-post (codes "/room/join") body join_room (omega arith) refl (omega arith) refl,
  routed-post (codes "/room/invite") body invite (omega arith) refl (omega arith) refl,
  routed-get (codes "/rooms") list_rooms (omega arith, spaceless-Undelimited (codes "/rooms") refl)
      (omega arith) refl,
  routed-get (fit 128 (codes "/room?id=" ++ id)) search
      (path-IsWord b'/' (codes "room?id=") id (spaceless-Undelimited (codes "/room?id=") refl) h)
      (length-path (codes "/room?id=" ++ id)) refl,
  routed-get (fit 128 (codes "/friends?user_id=" ++ id)) list_friends
      (path-IsWord b'/' (codes "friends?user_id=") id
        (spaceless-Undelimited (codes "/friends?user_id=") refl) h)
      (length-path (codes "/friends?user_id=" ++ id)) refl,
)
