-- ===== src/Http/Kept.antt =====
-- The handlers of src/SERVER/zt_http.c keep every property of the database that the commands to Redis keep:
-- sending the response leaves the database alone.
use zam_tok.Prelude.{
  ℕ, ℤ, is_neg, List, [], ◌∷◌, Option, none, Bytes, codes, ◌≡◌, inl, inr, refl, sym, subst, arith,
  leb, Bool-cases, Option-cases, length,
}
use zam_tok.Util.{Req}
use zam_tok.Step.{Result, ok, fail}
use zam_tok.Outcome.{Outcome, returns, out_of_fuel, overruns, and_then, Ensures}
use zam_tok.World.{Platform, World}
use zam_tok.Socket.{socket_send, write_all}
use zam_tok.Hdl.Send.{wire_text, hdl_send_http_json, hdl_bad_request}
use zam_tok.Util.{Res, ResultKind, generate_response}
use zam_tok.Codes.{ErrCode}
use zam_tok.Codes.Size
use zam_tok.Redis.Issued.{Invariant}
use zam_tok.Redis.Keys.{Room}
use zam_tok.Redis.RoomList.{redis_room_list}
use zam_tok.Redis.Issued.Rooms.{Leaves, redis_room_list-Leaves}
use zam_tok.Http.Quiet.{
  IsProper, join_steps-IsProper, login_steps-IsProper, create_room_steps-IsProper,
  search_room_steps-IsProper, join_room_steps-IsProper, invite_room_steps-IsProper,
}
use zam_tok.Http.Lists.Friends.{list_friends_steps-IsProper}
use zam_tok.Http.Respond.{send_response, respond}
use zam_tok.Http.Users.{join_steps, login_steps, http_join, http_login, is_method}
use zam_tok.Http.Rooms.{
  create_room_steps, search_room_steps, join_room_steps, invite_room_steps, http_create_room,
  http_search_room, http_join_room, http_invite_room,
}
use zam_tok.Http.Lists.{list_friends_steps, http_list_friends}
use zam_tok.Http.ListRooms.{rooms_result, list_rooms_steps, http_list_rooms}

module _ {P : Platform} where
  socket_send-store : (fd : ℤ) (s : Bytes) (w : World P) → (socket_send fd s w).1.store ≡ w.store
  unfolding socket_send write_all
  socket_send-store fd [] w = refl
  socket_send-store fd (c ∷ s) w = ground arith

  pub hdl_bad_request-store : (fd : ℤ) (w : World P) → (hdl_bad_request fd w).store ≡ w.store
  unfolding hdl_bad_request
  hdl_bad_request-store fd w = ground (
    arith,
    socket_send-store fd (codes "HTTP/1.1 400 Bad Request\r\nContent-Length: 0\r\n\r\n") w,
  )

  hdl_send_http_json-store :
      (fd : ℤ) (r : Res) (w : World P) → (hdl_send_http_json fd r w).1.store ≡ w.store
  unfolding hdl_send_http_json
  hdl_send_http_json-store fd r w = elim (Bool-cases (is_neg fd)) [
    | inl e ↦ rw e refl
    | inr e ↦ elim (Bool-cases (leb Size.wire (length (wire_text r)))) [
      | inl e' ↦ rw (e, e') refl
      | inr e' ↦ rw (e, e') (socket_send-store fd (wire_text r) w)
    ]
  ]

  send_response-store :
      (fd : ℤ) (q : Req) (n : ℕ) (k : ResultKind) (e : ErrCode) (d : Option Bytes) (w : World P)
      → (send_response fd q n k e d w).1.store ≡ w.store
  unfolding send_response
  send_response-store fd q n k e d w = elim (Option-cases (generate_response P.malloc q n)) [
    | inl none_made ↦ rw (none_made, send_response) refl
    | inr (r, made) ↦ rw (made, send_response) (hdl_send_http_json-store fd _ w)
  ]

  respond-store :
      (fd : ℤ) (q : Req) (r : Result (Option Bytes)) (w : World P)
      → (respond fd q (r, w)).1.store ≡ w.store
  unfolding respond
  respond-store fd q (ok d) w = send_response-store fd q 200 _ _ d w
  respond-store fd q (fail n e) w = send_response-store fd q n _ e none w

module _ {P : Platform} (I : Invariant P) where
  -- What holds of the database still holds.
  abbrev pub Still : P.Store → P.Store → Type 0
  Still s t = I.Holds s → I.Holds t

  pub Still-store : (s t u : P.Store) → u ≡ t → Still s t → Still s u
  Still-store s t u e h x = subst I.Holds (sym e) (h x)

  respond-Still :
      (fd : ℤ) (q : Req) (w : World P) (m : World P → Result (Option Bytes) × World P)
      → IsProper I m
      → Still w.store (respond fd q (m w)).1.store
  respond-Still fd q w m h =
      Still-store w.store (m w).1.store _ (respond-store fd q (m w).0 (m w).1) (h w).1.still

  pub http_join-Still :
      (fd : ℤ) (buf : Bytes) (q : Req) (w : World P) → Still w.store (http_join fd buf q w).1.store
  unfolding http_join
  http_join-Still fd buf q w = elim (Bool-cases (is_neg fd)) [
    | inl e ↦ rw e (λ x. x)
    | inr e ↦ rw e (respond-Still fd q w (join_steps buf q) (join_steps-IsProper I buf q))
  ]

  pub http_login-Still :
      (fd : ℤ) (buf : Bytes) (q : Req) (w : World P) → Still w.store (http_login fd buf q w).1.store
  unfolding http_login
  http_login-Still fd buf q w = elim (Bool-cases (is_neg fd)) [
    | inl e ↦ rw e (λ x. x)
    | inr e ↦ rw e (respond-Still fd q w (login_steps buf q) (login_steps-IsProper I buf q))
  ]

  pub http_create_room-Still :
      (fd : ℤ) (buf : Bytes) (q : Req) (w : World P)
      → Still w.store (http_create_room fd buf q w).1.store
  unfolding http_create_room
  http_create_room-Still fd buf q w = elim (Bool-cases (is_neg fd)) [
    | inl e ↦ rw e (λ x. x)
    | inr e ↦
        rw e (respond-Still fd q w (create_room_steps buf q) (create_room_steps-IsProper I buf q))
  ]

  pub http_search_room-Still :
      (fd : ℤ) (buf : Bytes) (q : Req) (w : World P)
      → Still w.store (http_search_room fd buf q w).1.store
  unfolding http_search_room
  http_search_room-Still fd buf q w = elim (Bool-cases (is_neg fd)) [
    | inl e ↦ rw e (λ x. x)
    | inr e ↦ rw e (respond-Still fd q w (search_room_steps q) (search_room_steps-IsProper I q))
  ]

  pub http_join_room-Still :
      (fd : ℤ) (buf : Bytes) (q : Req) (w : World P)
      → Still w.store (http_join_room fd buf q w).1.store
  unfolding http_join_room
  http_join_room-Still fd buf q w = elim (Bool-cases (is_neg fd)) [
    | inl e ↦ rw e (λ x. x)
    | inr e ↦ rw e (respond-Still fd q w (join_room_steps buf q) (join_room_steps-IsProper I buf q))
  ]

  pub http_invite_room-Still :
      (fd : ℤ) (buf : Bytes) (q : Req) (w : World P)
      → Still w.store (http_invite_room fd buf q w).1.store
  unfolding http_invite_room
  http_invite_room-Still fd buf q w = elim (Bool-cases (is_neg fd)) [
    | inl e ↦ rw e (λ x. x)
    | inr e ↦
        rw e (respond-Still fd q w (invite_room_steps buf q) (invite_room_steps-IsProper I buf q))
  ]

  pub http_list_friends-Still :
      (fd : ℤ) (buf : Bytes) (q : Req) (w : World P)
      → Still w.store (http_list_friends fd buf q w).1.store
  unfolding http_list_friends
  http_list_friends-Still fd buf q w = elim (Bool-cases (is_neg fd)) [
    | inl e ↦ rw e (λ x. x)
    | inr e ↦ rw e (respond-Still fd q w (list_friends_steps q) (list_friends_steps-IsProper I q))
  ]

  rooms_answered-Still :
      (fd : ℤ) (q : Req) (w : World P) (o : Outcome ((ℤ × List Room) × World P))
      → Leaves I w o
      → Ensures
          (and_then
            (and_then o (λ out. returns (rooms_result out)))
            (λ out. returns (respond fd q out)))
          (λ out. Still w.store out.1.store)
  unfolding rooms_result
  rooms_answered-Still fd q w (returns ((rc, rooms), v)) h =
      Still-store w.store v.store _ (respond-store fd q _ v) h.still
  rooms_answered-Still fd q w out_of_fuel h = tt
  rooms_answered-Still fd q w overruns h = tt

  pub http_list_rooms-Still :
      (fuel : ℕ) (fd : ℤ) (buf : Bytes) (q : Req) (w : World P)
      → Ensures (http_list_rooms fuel fd buf q w) (λ out. Still w.store out.1.store)
  unfolding http_list_rooms list_rooms_steps
  http_list_rooms-Still fuel fd buf q w = elim (Bool-cases (is_neg fd)) [
    | inl e ↦ rw (e, Ensures) (λ x. x)
    | inr e ↦ elim (Bool-cases (is_method (codes "GET") 3 q)) [
      | inl get ↦
          rw (e, get)
            (rooms_answered-Still fd q w (redis_room_list fuel Size.room_count w)
              (redis_room_list-Leaves I fuel Size.room_count w))
      | inr other ↦
          rw (e, other, Ensures) (Still-store w.store w.store _ (respond-store fd q _ w) (λ x. x))
    ]
  ]
