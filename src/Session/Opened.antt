-- ===== src/Session/Opened.antt =====
-- A room that is created and joined over the socket: from what the clients' users type (src/CLIENT/zt_chat.c)
-- to the messages that come back and the database that is left (src/SERVER/zt_hdl.c, src/SERVER/zt_http.c).
use zam_tok.Prelude.{
  ℕ, ◌<◌, ℤ, is_neg, Bool, true, false, [], Option, some, Bytes, codes, ◌≡◌, refl, ap, ◌∙◌, arith,
  if◌then◌else◌, length, length-append,
}
use zam_tok.CString.{fit, str_eq, strn_eq}
use zam_tok.CString.Format.{fit-fits}
use zam_tok.Codes.Rc
use zam_tok.Codes.Size
use zam_tok.Codes.{ErrCode}
use zam_tok.Util.{Req}
use zam_tok.Step.{Result, ok, fail}
use zam_tok.Outcome.{returns}
use zam_tok.World.{Platform, World}
use zam_tok.Redis.Laws.{IsRedis, takes_hash}
use zam_tok.Hdl.Request.{create, join_room, request_of, route_of, dispatch}
use zam_tok.Http.Respond.{respond}
use zam_tok.Http.Respond.Sent.{InRange}
use zam_tok.Http.Rooms.{
  create_room_data, room_id_data, create_room_steps, join_room_steps, http_create_room,
  http_join_room,
}
use zam_tok.Http.Rooms.Access.{join_room_lem}
use zam_tok.Http.Rooms.Creation.{named_room}
use zam_tok.Http.Rooms.Opened.{HoldsRoom, created, created-join}
use zam_tok.Chat.{chat_create_room, chat_join_room, create_room_json, join_room_json}
use zam_tok.Chat.Fields.{IsReadable, join_room_body}
use zam_tok.Chat.Requests.{request}
use zam_tok.Chat.Rooms.{
  chat_create_room-request, chat_join_room-request, create_room_steps-request,
  join_room_steps-request,
}
use zam_tok.Session.Rooms.{Asked, body_of, room_of, CanOpen, given-CanCreate}
use zam_tok.Session.Wire.{NoNul, nul_free-NoNul, piece-NoNul, posted}
use zam_tok.Session.Answered.{Says, and_sent, Comes, told, posted-is_method, posted-Comes}

create_routed : (text : Bytes) → route_of (posted (codes "/room") text) ≡ create
unfolding route_of request_of str_eq strn_eq fit
create_routed text = refl

join_room_routed : (text : Bytes) → route_of (posted (codes "/room/join") text) ≡ join_room
unfolding route_of request_of str_eq strn_eq fit
join_room_routed text = refl

-- What is asked for, as C strings.
pub record AreTexts (a : Asked) : Type 0 where
  pub raw_plain : NoNul a.raw
  pub password_plain : NoNul a.password
  pub creator_plain : NoNul a.creator
  pub type_plain : NoNul a.room_type
  pub members_plain : NoNul a.members

abbrev json_of : Asked → Bytes
json_of a = create_room_json a.raw a.password a.creator a.room_type a.members

create_json-NoNul : (a : Asked) → AreTexts a → NoNul (json_of a)
create_json-NoNul a h = piece-NoNul (codes "{\"room_id\": \"") a.raw _ refl h.raw_plain (
    piece-NoNul (codes "\", \"password\": \"") a.password _ refl h.password_plain (
      piece-NoNul (codes "\", \"user_id\": \"") a.creator _ refl h.creator_plain (
        piece-NoNul (codes "\", \"room_type\": \"") a.room_type _ refl h.type_plain (
          piece-NoNul (codes "\", \"members\": \"") a.members _ refl h.members_plain
            (nul_free-NoNul (codes "\"}") refl)))))

join_json-NoNul :
    (room_id password : Bytes)
    → NoNul room_id
    → NoNul password
    → NoNul (join_room_json room_id password)
join_json-NoNul room_id password a b = piece-NoNul (codes "{\"room_id\": \"") room_id _ refl a (
    piece-NoNul (codes "\", \"password\": \"") password _ refl b
      (nul_free-NoNul (codes "\"}") refl))

create_json-short : (a : Asked) → IsReadable [] (body_of a) → length (json_of a) < 512
create_json-short a (_, b, _, (_, c, _, (_, d, _, (_, e, _, (_, f, _, _))))) = omega (
  arith,
  b.fits,
  c.fits,
  d.fits,
  e.fits,
  f.fits,
  length-append {0} a.raw,
  length-append {0} a.password,
  length-append {0} a.creator,
  length-append {0} a.room_type,
  length-append {0} a.members,
)

join_json-short :
    (room_id password : Bytes)
    → IsReadable [] (join_room_body room_id password)
    → length (join_room_json room_id password) < 512
join_json-short room_id password (_, a, _, (_, b, _, _)) =
    omega (arith, a.fits, b.fits, length-append {0} room_id, length-append {0} password)

module _ {P : Platform} (room : P.malloc ≡ true) (fuel : ℕ) (fd : ℤ) (up : is_neg fd ≡ false) where
  create-told :
      (buf : Bytes) (q : Req) (w v : World P) (r : Result (Option Bytes))
      → InRange r
      → create_room_steps buf q w ≡ (r, v)
      → (m : Bytes) × (dispatch fuel create fd buf q w ≡ returns (Rc.ok, and_sent fd m v))
        × Says m r
  unfolding dispatch http_create_room
  create-told buf q w v r h e =
      told room fd up q r v (http_create_room fd buf q w) h (rw up (ap (respond fd q) e))

  join_room-told :
      (buf : Bytes) (q : Req) (w v : World P) (r : Result (Option Bytes))
      → InRange r
      → join_room_steps buf q w ≡ (r, v)
      → (m : Bytes) × (dispatch fuel join_room fd buf q w ≡ returns (Rc.ok, and_sent fd m v))
        × Says m r
  unfolding dispatch http_join_room
  join_room-told buf q w v r h e =
      told room fd up q r v (http_join_room fd buf q w) h (rw up (ap (respond fd q) e))

-- A run: a request to create a room, and then any to join it, over the socket.
pub record OpensServed {P : Platform} (L : IsRedis P) (fuel : ℕ) (fd : ℤ) (write : ℤ → Bytes → ℤ)
    (socket : ℤ) (a : Asked) (id : Bytes) (w : World P) : Type 0 where
  pub store : P.Store
  pub creates :
      Comes fuel fd
        (chat_create_room write socket a.raw a.password a.creator a.room_type a.members).1
        (ok (some (create_room_data (named_room (room_of a) id))))
        w
        (record w { store = store })
  pub holds : HoldsRoom L (named_room (room_of a) id) w.store store
  pub joins :
      (p : Bytes)
      → IsReadable [] (join_room_body id p)
      → NoNul id
      → NoNul p
      → Comes fuel fd
          (chat_join_room write socket id p).1
          (if str_eq a.password p
            then ok (some (room_id_data id))
            else fail 401 ErrCode.wrong_password)
          (and_sent fd creates.message (record w { store = store }))
          (and_sent fd creates.message (record w { store = store }))

joined-InRange :
    (b : Bool) (d : Bytes)
    → InRange {A = Option Bytes} (if b then ok (some d) else fail 401 ErrCode.wrong_password)
joined-InRange true d = tt
joined-InRange false d = (omega arith, omega arith)

module _ {P : Platform} (L : IsRedis P) (w : World P) (room : P.malloc ≡ true) (fuel : ℕ) (fd : ℤ)
    (write : ℤ → Bytes → ℤ) (socket : ℤ) where
  -- On a connected platform with the laws of Redis, a typed database, and `malloc` that succeeds, and on
  -- open sockets, a room can be opened over the socket: if its fields can be read back and hold no NUL,
  -- the creator is known, the members are friends of the creator and suit the type, and the id is free,
  -- `hdl_socket` takes the request that `chat_create_room` sends, if one `read` brings it, returns
  -- `ZT_RC_OK`, stores the room with its creator and members, and sends one message, with status 200 and
  -- the room's data. A request that `chat_join_room` then sends comes to one message with status 200 if
  -- the password is the room's and 401 otherwise, and leaves the database as it is, provided that the id
  -- of the room and the password that is given can be read back and hold no NUL.
  pub opens_room_served :
      (a : Asked) (id : Bytes)
      → is_neg fd ≡ false
      → is_neg socket ≡ false
      → IsReadable [] (body_of a)
      → AreTexts a
      → CanOpen L w a id
      → OpensServed L fuel fd write socket a id w
  opens_room_served a id open_fd open_ readable plain h =
      let can = given-CanCreate L w a id h readable in
      let w' = created L w (room_of a) a.raw id can in
      let (made, holds, joins) = created-join L w (room_of a) a.raw id can in
      let short = create_json-short a readable in
      let creates =
        posted-Comes room fuel fd open_fd write socket open_ (codes "/room") (json_of a) create w w'
          (ok (some (create_room_data (named_room (room_of a) id)))) _ refl refl (omega arith)
          (omega arith) (create_json-NoNul a plain) short
          (create_routed (request (codes "/room") (json_of a)))
          (chat_create_room-request write socket open_ a.raw a.password a.creator a.room_type
            a.members readable)
          (create-told room fuel fd open_fd _ _ w w' _ tt (
            create_room_steps-request _ (posted-is_method (codes "/room") _) w a.raw a.password
              a.creator a.room_type a.members readable
            ∙ made)) in
      let w1 = and_sent fd creates.message w' in
      record {
        store = w'.store;
        creates = creates;
        holds = holds;
        joins = λ p readable_p plain_id plain_p.
            posted-Comes room fuel fd open_fd write socket open_ (codes "/room/join")
              (join_room_json id p) join_room w1 w1 _ _ refl refl (omega arith) (omega arith)
              (join_json-NoNul id p plain_id plain_p) (join_json-short id p readable_p)
              (join_room_routed (request (codes "/room/join") (join_room_json id p)))
              (chat_join_room-request write socket open_ id p readable_p)
              (join_room-told room fuel fd open_fd _ _ w1 w1 _
                (joined-InRange (str_eq a.password p) (room_id_data id))
                (join_room_steps-request _ (posted-is_method (codes "/room/join") _) w1 id p
                    readable_p
                  ∙ join_room_lem L w1 h.connected id p (ap takes_hash holds.kind_is)
                  ∙ rw (holds.password_is, fit-fits Size.password a.password can.password_fits)));
      }
