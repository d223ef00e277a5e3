-- ===== src/Session/Rooms.antt =====
-- The client and the server together: a room that the client's user creates, and those who join it
-- (src/CLIENT/zt_chat.c, src/SERVER/zt_http.c).
use zam_tok.Prelude.{
  ℤ, is_neg, true, false, List, [], ◌∷◌, some, Bytes, codes, ◌≡◌, ◌∙◌, if◌then◌else◌, All,
}
use zam_tok.CString.{str_eq}
use zam_tok.Codes.Rc
use zam_tok.Codes.Size
use zam_tok.Codes.{ErrCode}
use zam_tok.Util.{Req}
use zam_tok.Step.{ok, fail}
use zam_tok.World.{Platform, World}
use zam_tok.Redis.Keys.{zero_room, Room, user_key, room_key, friend_key, user_rooms_key}
use zam_tok.Redis.Laws.{IsRedis, is_absent, takes_set}
use zam_tok.Redis.Families.{IsTyped, friends, room_members, user_rooms}
use zam_tok.Http.Helpers.{http_validate_room_type_members, http_make_room_id}
use zam_tok.Http.Users.{is_method}
use zam_tok.Http.Members.{member_names, all_friends}
use zam_tok.Http.Rooms.{create_room_data, room_id_data, create_room_steps, join_room_steps}
use zam_tok.Http.Rooms.Creation.{named_room}
use zam_tok.Http.Rooms.Stored.{OpenAll, all_names}
use zam_tok.Http.Rooms.Opened.{CanCreate, HoldsRoom, created, created-join}
use zam_tok.Chat.{chat_create_room, chat_join_room}
use zam_tok.Session.{not_empty}
use zam_tok.Chat.Fields.{Field, IsReadable, create_body, join_room_body}
use zam_tok.Chat.Rooms.{
  chat_create_room-request, chat_join_room-request, create_room_steps-request,
  join_room_steps-request,
}

-- What is asked for: the name that is typed for the room, and the fields of the room.
pub record Asked : Type 0 where
  pub raw : Bytes
  pub password : Bytes
  pub creator : Bytes
  pub room_type : Bytes
  pub members : Bytes

abbrev pub body_of : Asked → List Field
body_of a = create_body a.raw a.password a.creator a.room_type a.members

abbrev pub room_of : Asked → Room
room_of a = record zero_room {
  password = a.password;
  creator_id = a.creator;
  room_type = a.room_type;
  members = a.members;
}

module _ {P : Platform} (L : IsRedis P) where
  pub friends_set :
      (s : P.Store) (id : Bytes) → IsTyped L s → takes_set (L.kind s (friend_key id)) ≡ true
  unfolding IsTyped
  friends_set s id h = h friends id

  rooms_open :
      (s : P.Store) (ns : List Bytes)
      → IsTyped L s
      → All (λ n. takes_set (L.kind s (user_rooms_key n)) ≡ true) ns
  unfolding IsTyped
  rooms_open s [] h = tt
  rooms_open s (n ∷ ns) h = (h user_rooms n, rooms_open s ns h)

  typed-OpenAll : (s : P.Store) (id : Bytes) (ns : List Bytes) → IsTyped L s → OpenAll L id ns s
  unfolding IsTyped
  typed-OpenAll s id ns h = (h room_members id, rooms_open s ns h)

-- The database is typed, the creator and the members have accounts and friends, and the id is free.
pub record CanOpen {P : Platform} (L : IsRedis P) (w : World P) (a : Asked) (id : Bytes)
    : Type 0 where
  pub connected : w.connected ≡ true
  pub typed : IsTyped L w.store
  pub creator_known : is_absent (L.kind w.store (user_key a.creator)) ≡ false
  pub suits : http_validate_room_type_members a.room_type a.members ≡ Rc.ok
  pub all_known :
      all_friends L w connected a.creator
        (friends_set L w.store a.creator typed)
        (member_names a.members)
      ≡ true
  pub id_made : http_make_room_id a.raw a.creator Size.room_id ≡ some id
  pub id_free : is_absent (L.kind w.store (room_key id)) ≡ true

-- A run: a request to create a room, and then any request to join it, each as the client sends it and
-- the server reads it.
pub record OpensRoom {P : Platform} (L : IsRedis P) (write : ℤ → Bytes → ℤ) (socket : ℤ) (a : Asked)
    (id : Bytes) (q q' : Req) (w : World P) : Type 0 where
  pub create_request : Bytes
  pub opened : World P
  pub create_sent :
      (chat_create_room write socket a.raw a.password a.creator a.room_type a.members).1
      ≡ some create_request
  pub create_done :
      create_room_steps create_request q w
      ≡ (ok (some (create_room_data (named_room (room_of a) id))), opened)
  pub held : HoldsRoom L (named_room (room_of a) id) w.store opened.store
  pub join_done :
      (p : Bytes)
      → IsReadable [] (join_room_body id p)
      → (join_request : Bytes) × ((chat_join_room write socket id p).1 ≡ some join_request)
        × (join_room_steps join_request q' opened ≡ (
          (if str_eq a.password p
              then ok (some (room_id_data id))
              else fail 401 ErrCode.wrong_password),
          opened,
        ))

module _ {P : Platform} (L : IsRedis P) (w : World P) where
  pub given-CanCreate :
      (a : Asked) (id : Bytes)
      → CanOpen L w a id
      → IsReadable [] (body_of a)
      → CanCreate L w (room_of a) a.raw id
  given-CanCreate a id h (_, f, _, (_, g, _, (_, k, _, _))) = record {
    connected = h.connected;
    creator_given = not_empty a.creator k.positive;
    friends_typed = friends_set L w.store a.creator h.typed;
    creator_known = h.creator_known;
    suits = h.suits;
    all_known = h.all_known;
    id_made = h.id_made;
    id_free = h.id_free;
    sets_typed = typed-OpenAll L w.store id (all_names L (room_of a)) h.typed;
    password_fits = g.fits;
  }

  -- On a connected platform with the laws of Redis and a typed database, and on an open client socket,
  -- a room with fields that can be read back, a known creator, members who are friends of the creator
  -- and suit its type, and an id that is free is opened: the server's steps on the POST request that
  -- `chat_create_room` sends store the room with the creator and the members, and those on any that
  -- `chat_join_room` then sends under the id succeed exactly with the room's password, where id and
  -- password can be read back, and leave the database as it is.
  opens_room :
      (write : ℤ → Bytes → ℤ) (socket : ℤ) (a : Asked) (id : Bytes) (q q' : Req)
      → is_neg socket ≡ false
      → is_method (codes "POST") 4 q ≡ true
      → is_method (codes "POST") 4 q' ≡ true
      → IsReadable [] (body_of a)
      → CanOpen L w a id
      → OpensRoom L write socket a id q q' w
  opens_room write socket a id q q' up posted posted' readable h =
      let can = given-CanCreate a id h readable in
      let w' = created L w (room_of a) a.raw id can in
      let (made, holds, joins) = created-join L w (room_of a) a.raw id can in
      record {
        create_request = _;
        opened = w';
        create_sent =
            chat_create_room-request write socket up a.raw a.password a.creator a.room_type
              a.members readable;
        create_done =
            create_room_steps-request q posted w a.raw a.password a.creator a.room_type a.members
              readable
            ∙ made;
        held = holds;
        join_done = λ p readable_p. (
          _,
          chat_join_room-request write socket up id p readable_p,
          join_room_steps-request q' posted' w' id p readable_p ∙ joins p,
        );
      }
