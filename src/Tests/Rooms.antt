-- ===== src/Tests/Rooms.antt =====
-- The theorems about rooms at concrete inputs.
use zam_tok.Http.RoomIds.{IsConfused, http_make_room_id_clash}
use zam_tok.Prelude.{
  true, not, [], some, Bytes, codes, ◌≡◌, ◌↔◌, refl, arith, if◌then◌else◌, length,
}
use zam_tok.CString.{str_eq, fit, tokens, one_of, skip_ws, trim_end, is_ws, tokens_from}
use zam_tok.Codes.Rc
use zam_tok.Codes.{ErrCode}
use zam_tok.Util.{Req}
use zam_tok.Step.{fail}
use zam_tok.World.{World}
use zam_tok.Redis.Keys.{Room, room_key, user_key, friend_key, room_members_key, user_rooms_key}
use zam_tok.Redis.Rooms.Replies.{stored_room}
use zam_tok.Redis.Laws.{is_absent, takes_set, takes_hash}
use zam_tok.Redis.Laws.Model.{
  a_hash, a_set, nothing, put, Database, platform, empty_world, model_laws,
}
use zam_tok.Http.Helpers.{
  http_trim_token, split_members, count_loop, http_member_count, http_validate_room_type_members,
  http_members_are_friends, http_make_room_id,
}
use zam_tok.Http.Members.{
  member_names, Suits, http_validate_room_type_members_lem, all_friends,
  http_members_are_friends_lem,
}
use zam_tok.Http.Rooms.{create_room, join_room, invite_room, search_room_steps}
use zam_tok.Http.Rooms.Access.{join_result, join_room_lem, search_failure, search_room_steps_lem}
use zam_tok.Http.Rooms.Creation.{create_outcome, create_room_lem}
use zam_tok.Http.Rooms.Stored.{OpenAll}
use zam_tok.Http.Rooms.Opened.{CanCreate}
use zam_tok.Http.Rooms.Invited.{invite_answer, invite_room_lem}

-- A database with one user, who has one friend.
abbrev friendly : Database
friendly =
    put (user_key (codes "alice")) (a_hash (λ f. some (codes "x")))
      (put (friend_key (codes "alice")) (a_set (λ n. str_eq n (codes "bob"))) (λ k. nothing))

abbrev friendly_world : World platform
friendly_world = record { store = friendly; connected = true; sent = [] }

abbrev chess : Room
chess = record {
  room_id = [];
  password = codes "pw";
  creator_id = codes "alice";
  room_type = codes "1:1";
  members = codes " bob ";
  channel_id = [];
}

abbrev chess_id : Bytes
chess_id = codes "chess_alice"

abbrev get_request : Req
get_request = record {
  str_method = codes "GET";
  str_uri = codes "/room?id=chess";
  str_version = codes "HTTP/1.1";
  t_content_headers = [];
  i_content_header_count = 0;
  str_body = [];
}

http_validate_room_type_members_lem_example :
    (http_validate_room_type_members (codes "1:1") (codes "bob, carol") ≡ Rc.ok)
    ↔ Suits (codes "1:1") (length (member_names (codes "bob, carol")))
http_validate_room_type_members_lem_example =
    http_validate_room_type_members_lem (codes "1:1") (codes "bob, carol")

friends_typed : takes_set (model_laws.kind friendly (friend_key (codes "alice"))) ≡ true
unfolding str_eq user_key friend_key fit
friends_typed = refl

http_members_are_friends_lem_example :
    http_members_are_friends (codes "alice") (codes " bob ") friendly_world ≡ (
      (if all_friends model_laws friendly_world refl
            (codes "alice")
            friends_typed
            (member_names (codes " bob "))
          then Rc.ok
          else Rc.fail),
      friendly_world,
    )
http_members_are_friends_lem_example =
    http_members_are_friends_lem model_laws friendly_world refl (codes "alice") friends_typed
      (codes " bob ")

join_room_lem_example : join_room chess_id (codes "pw") empty_world ≡ (
  join_result chess_id
      (stored_room model_laws empty_world refl chess_id (codes "pwd"))
      (codes "pw"),
  empty_world,
)
join_room_lem_example = join_room_lem model_laws empty_world refl chess_id (codes "pw") refl

search_room_steps_lem_example :
    search_room_steps get_request empty_world ≡ (search_failure get_request, empty_world)
search_room_steps_lem_example = search_room_steps_lem model_laws empty_world refl get_request refl

create_room_lem_example :
    create_room (codes "chess") chess friendly_world
    ≡ create_outcome model_laws friendly_world refl chess friends_typed (codes "chess")
create_room_lem_example =
    create_room_lem model_laws friendly_world refl chess friends_typed (codes "chess") refl

chess-CanCreate : CanCreate model_laws friendly_world chess (codes "chess") chess_id
unfolding http_trim_token split_members tokens tokens_from one_of skip_ws trim_end is_ws fit str_eq
    http_validate_room_type_members http_member_count count_loop http_make_room_id user_key
    friend_key room_key room_members_key user_rooms_key
chess-CanCreate = record {
  connected = refl;
  creator_given = refl;
  friends_typed = friends_typed;
  creator_known = refl;
  suits = refl;
  all_known = refl;
  id_made = refl;
  id_free = refl;
  sets_typed = (refl, (refl, (refl, tt)));
  password_fits = omega arith;
}

no_members : OpenAll model_laws chess_id (member_names (codes "bob")) friendly
unfolding http_trim_token split_members tokens tokens_from one_of skip_ws trim_end is_ws fit str_eq
    user_key friend_key room_members_key user_rooms_key
no_members = (refl, (refl, tt))

no_room : takes_hash (model_laws.kind friendly (room_key chess_id)) ≡ true
unfolding fit str_eq user_key friend_key room_key
no_room = refl

invite_room_lem_example : invite_room chess_id (codes "alice") (codes "bob") friendly_world ≡ (
    if is_absent (model_laws.kind friendly (user_key (codes "alice")))
    then (fail 401 ErrCode.user_not_found, friendly_world)
    else if not (
        all_friends model_laws friendly_world refl
          (codes "alice")
          friends_typed
          (member_names (codes "bob")))
    then (fail 403 ErrCode.not_friend, friendly_world)
    else invite_answer model_laws friendly_world refl chess_id
        (codes "alice")
        (codes "bob")
        friends_typed
        no_room
        no_members
        (stored_room model_laws friendly_world refl chess_id (codes "pwd")))
invite_room_lem_example =
    invite_room_lem model_laws friendly_world refl chess_id (codes "alice") (codes "bob")
      friends_typed no_room no_members refl

id_made : http_make_room_id (codes "chess") (codes "alice") 64 ≡ some chess_id
unfolding http_make_room_id
id_made = refl

http_make_room_id_clash_example :
    (http_make_room_id (codes "a") (codes "b_c") 64
      ≡ http_make_room_id (codes "a_b") (codes "c") 64)
    ↔ IsConfused (codes "a_b") (codes "c") (codes "a") (codes "b_c")
http_make_room_id_clash_example =
    http_make_room_id_clash (codes "a_b") (codes "c") (codes "a") (codes "b_c") 64 (omega arith)
