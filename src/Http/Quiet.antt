-- ===== src/Http/Quiet.antt =====
-- Before a handler comes to `next` it sends nothing, keeps the connection to Redis, and leaves only
-- with a status that HTTP knows. The rules follow the shape of the handlers.
use zam_tok.Codes.Size
use zam_tok.Prelude.{
  ℕ, ℤ, is_neg, Bool, true, false, List, [], ◌∷◌, ◌++◌, Option, Bytes, codes, ◌≡◌, inl, inr, arith,
  Option-cases, get_or,
}
use zam_tok.CString.{fit}
use zam_tok.Codes.{ErrCode}
use zam_tok.Util.{Req, FieldSpec, bind_loop, http_bind_json_fields, msg_copy_json_string_field}
use zam_tok.Step.{Result, ok, fail, Step, after, ◌>>=◌, ◌>>◌, require}
use zam_tok.World.{Platform, World}
use zam_tok.Redis.Keys.{User, Room, zero_room, zero_user}
use zam_tok.Redis.Users.{redis_user_exists, redis_mdn_exists, redis_user_is_friend}
use zam_tok.Redis.Rooms.{apart, own_field}
use zam_tok.Http.Helpers.{
  http_get_body, http_trim_token, friends_loop, split_members, http_members_are_friends,
  http_query_value, http_make_room_id,
}
use zam_tok.Http.Respond.{bind_fields}
use zam_tok.Http.Respond.Sent.{InRange}
use zam_tok.Http.Users.{
  join_user, join_steps, login_user, login_steps, is_method, join_fields, joined_user, login_fields,
}
use zam_tok.Http.Rooms.{
  create_room, create_room_steps, search_room_steps, join_room, join_room_steps, invite_room,
  invite_room_steps, create_fields, asked_room, join_room_fields, invite_fields,
}
use zam_tok.Redis.Issued.{
  Invariant, Same, Keeps, Same-refl, Same-trans, redis_user_exists-Keeps, redis_mdn_exists-Keeps,
  redis_user_save-Keeps, redis_user_get-Keeps, redis_user_is_friend-Keeps,
}
use zam_tok.Redis.Issued.Rooms.{
  redis_room_get-Keeps, redis_room_save-Keeps, redis_room_invite-Keeps,
}

module _ {P : Platform} (I : Invariant P) where
  friends_loop-Keeps : (a : Bytes) (ts : List Bytes) → Keeps I {A = ℤ} (friends_loop a ts)
  unfolding friends_loop
  friends_loop-Keeps a [] w = Same-refl I w
  friends_loop-Keeps a (t ∷ ts) w = ground (
    arith,
    redis_user_is_friend-Keeps I a (http_trim_token t) w,
    friends_loop-Keeps a ts w,
    friends_loop-Keeps a ts (redis_user_is_friend a (http_trim_token t) w).1,
  )

  members_are_friends-Keeps : (a m : Bytes) → Keeps I {A = ℤ} (http_members_are_friends a m)
  unfolding http_members_are_friends
  members_are_friends-Keeps a m w = friends_loop-Keeps a (split_members m) w

  -- A step of a handler that is in order.
  abbrev pub IsProper : {A : Type 0} → Step (World P) A → Type 0
  IsProper m = (w : World P) → InRange (m w).0 × Same I w (m w).1

  after-IsProper :
      {A B : Type 0} (w : World P) (r : Result A × World P) (f : A → Step (World P) B)
      → InRange r.0
      → Same I w r.1
      → ((a : A) → IsProper (f a))
      → InRange (after r f).0 × Same I w (after r f).1
  after-IsProper w (ok a, v) f h k p = ((p a v).0, Same-trans I w v (f a v).1 k (p a v).1)
  after-IsProper w (fail n e, v) f h k p = (h, k)

  join_user-IsProper : (u : User) → IsProper (join_user u)
  unfolding join_user
  join_user-IsProper u w =
      let w1 = (redis_user_exists u.user_id w).1 in
      let w2 = (redis_mdn_exists u.mdn w1).1 in
      ground (
        arith,
        redis_user_exists-Keeps I u.user_id w,
        redis_mdn_exists-Keeps I u.mdn w1,
        redis_user_save-Keeps I u w2,
      )

  login_user-IsProper : (id p : Bytes) → IsProper (login_user id p)
  unfolding login_user
  login_user-IsProper id p w = ground (arith, redis_user_get-Keeps I id zero_user w)

  create_room-IsProper : (raw : Bytes) (r : Room) → IsProper (create_room raw r)
  unfolding create_room
  create_room-IsProper raw r w =
      let w1 = (redis_user_exists r.creator_id w).1 in
      let w2 = (http_members_are_friends r.creator_id r.members w1).1 in
      elim (Option-cases (http_make_room_id raw r.creator_id Size.room_id)) [
        | inl e ↦ ground (
          arith,
          redis_user_exists-Keeps I r.creator_id w,
          members_are_friends-Keeps r.creator_id r.members w1,
        )
        | inr (id, e) ↦ ground (
          arith,
          redis_user_exists-Keeps I r.creator_id w,
          members_are_friends-Keeps r.creator_id r.members w1,
          redis_room_save-Keeps I (record r { room_id = id; channel_id = fit Size.room_id id }) w2,
        )
      ]

  join_room-IsProper : (id p : Bytes) → IsProper (join_room id p)
  unfolding join_room
  join_room-IsProper id p w = ground (arith, redis_room_get-Keeps I (apart id) zero_room w)

  invite_room-IsProper : (r u m : Bytes) → IsProper (invite_room r u m)
  unfolding invite_room
  invite_room-IsProper r u m w =
      let w1 = (redis_user_exists u w).1 in
      let w2 = (http_members_are_friends u m w1).1 in
      ground (
        arith,
        redis_user_exists-Keeps I u w,
        members_are_friends-Keeps u m w1,
        redis_room_invite-Keeps I r u m w2,
      )

  pub search_room_steps-IsProper : (q : Req) → IsProper (search_room_steps q)
  unfolding search_room_steps
  search_room_steps-IsProper q w =
      elim (Option-cases (http_query_value q.str_uri (codes "id") Size.room_id)) [
        | inl e ↦ ground arith
        | inr (id, e) ↦
            ground (arith, redis_room_get-Keeps I own_field (record zero_room { room_id = id }) w)
      ]

bind_loop-status :
    (body : Bytes) (fs : List FieldSpec) (outs : List Bytes) (n : ℕ) (e : ErrCode)
    → is_neg (bind_loop body fs outs n e).rc ≡ true
    → (bind_loop body fs outs n e).status ≡ 400
unfolding bind_loop
bind_loop-status body [] outs n e h = cc
bind_loop-status body (f ∷ fs) outs n e h =
    elim (Option-cases (msg_copy_json_string_field body f.str_json_key f.sz_out)) [
      | inl bad ↦ ground arith
      | inr (v, good) ↦ ground (arith, bind_loop-status body fs (outs ++ v ∷ []) n e)
    ]

module _ {P : Platform} (I : Invariant P) where
  bind_fields-IsProper : (body : Bytes) (fs : List FieldSpec) → IsProper I (bind_fields body fs)
  unfolding bind_fields http_bind_json_fields
  bind_fields-IsProper body [] w = (tt, Same-refl I w)
  bind_fields-IsProper body (f ∷ fs) w =
      ground (arith, bind_loop-status body (f ∷ fs) [] 200 ErrCode.invalid_params)

  -- A handler that reads fields: the method is tested, the fields are bound, the rest follows.
  read_then-IsProper :
      (b : Bool) (body : Bytes) (fs : List FieldSpec)
      (rest : List Bytes → Step (World P) (Option Bytes))
      → ((outs : List Bytes) → IsProper I (rest outs))
      → IsProper I (require b 405 ErrCode.method_not_allowed >> (bind_fields body fs >>= rest))
  read_then-IsProper true body fs rest h w =
      let bound = bind_fields-IsProper body fs w in
      after-IsProper I w (bind_fields body fs w) rest bound.0 bound.1 h
  read_then-IsProper false body fs rest h w = ((omega arith, omega arith), Same-refl I w)

  pub join_steps-IsProper : (buf : Bytes) (q : Req) → IsProper I (join_steps buf q)
  unfolding join_steps
  join_steps-IsProper buf q =
      read_then-IsProper (is_method (codes "POST") 4 q) (http_get_body buf) join_fields
        (λ outs. join_user (joined_user outs)) (λ outs. join_user-IsProper I (joined_user outs))

  pub login_steps-IsProper : (buf : Bytes) (q : Req) → IsProper I (login_steps buf q)
  unfolding login_steps
  login_steps-IsProper buf q =
      read_then-IsProper (is_method (codes "POST") 4 q) (http_get_body buf) login_fields
        (λ outs. login_user (get_or outs 0 []) (get_or outs 1 []))
        (λ outs. login_user-IsProper I (get_or outs 0 []) (get_or outs 1 []))

  pub create_room_steps-IsProper : (buf : Bytes) (q : Req) → IsProper I (create_room_steps buf q)
  unfolding create_room_steps
  create_room_steps-IsProper buf q =
      read_then-IsProper (is_method (codes "POST") 4 q) (http_get_body buf) create_fields
        (λ outs. create_room (get_or outs 0 []) (asked_room outs))
        (λ outs. create_room-IsProper I (get_or outs 0 []) (asked_room outs))

  pub join_room_steps-IsProper : (buf : Bytes) (q : Req) → IsProper I (join_room_steps buf q)
  unfolding join_room_steps
  join_room_steps-IsProper buf q =
      read_then-IsProper (is_method (codes "POST") 4 q) (http_get_body buf) join_room_fields
        (λ outs. join_room (get_or outs 0 []) (get_or outs 1 []))
        (λ outs. join_room-IsProper I (get_or outs 0 []) (get_or outs 1 []))

  pub invite_room_steps-IsProper : (buf : Bytes) (q : Req) → IsProper I (invite_room_steps buf q)
  unfolding invite_room_steps
  invite_room_steps-IsProper buf q =
      read_then-IsProper (is_method (codes "POST") 4 q) (http_get_body buf) invite_fields
        (λ outs. invite_room (get_or outs 0 []) (get_or outs 1 []) (get_or outs 2 []))
        (λ outs. invite_room-IsProper I (get_or outs 0 []) (get_or outs 1 []) (get_or outs 2 []))
