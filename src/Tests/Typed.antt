-- ===== src/Tests/Typed.antt =====
-- Typed databases, and the theorem about a room that is opened on one.
use zam_tok.Prelude.{pos, true, [], some, Bytes, codes, ◌≡◌, refl, arith, if◌then◌else◌, length}
use zam_tok.CString.{str_eq, fit, tokens, one_of, skip_ws, trim_end, is_ws, tokens_from}
use zam_tok.Util.{Req}
use zam_tok.World.{World}
use zam_tok.Redis.Keys.{user_key, room_key, friend_key, room_members_key, user_rooms_key}
use zam_tok.Redis.Laws.Model.{
  Held, a_hash, a_set, nothing, put, kind_of, Database, platform, empty_world, model_laws,
}
use zam_tok.Redis.Families.{
  IsTyped, users, mdns, rooms, friends, room_members, user_rooms, written-IsTyped,
}
use zam_tok.Http.Helpers.{
  http_trim_token, split_members, count_loop, http_member_count, http_validate_room_type_members,
  http_make_room_id,
}
use zam_tok.Session.Wire.{nul_free-NoNul}
use zam_tok.Session.Opened.{AreTexts, OpensServed, opens_room_served}
use zam_tok.Session.Rooms.{Asked, CanOpen}

pub empty-IsTyped : IsTyped model_laws empty_world.store
unfolding IsTyped
empty-IsTyped users id = refl
empty-IsTyped mdns id = refl
empty-IsTyped rooms id = refl
empty-IsTyped friends id = refl
empty-IsTyped room_members id = refl
empty-IsTyped user_rooms id = refl

abbrev post_request : Req
post_request = record {
  str_method = codes "POST";
  str_uri = codes "/room";
  str_version = codes "HTTP/1.1";
  t_content_headers = [];
  i_content_header_count = 0;
  str_body = [];
}

-- Alice, and her friend Bob.
abbrev friend_set : Database
friend_set = put (friend_key (codes "alice")) (a_set (λ n. str_eq n (codes "bob"))) (λ k. nothing)

abbrev accounts : Database
accounts = put (user_key (codes "alice")) (a_hash (λ f. some (codes "x"))) friend_set

put_kind :
    (k j : Bytes) (h : Held) (s : Database)
    → kind_of (put k h s j) ≡ (if str_eq k j then kind_of h else kind_of (s j))
put_kind k j h s = ground arith

accounts-IsTyped : IsTyped model_laws accounts
accounts-IsTyped =
    written-IsTyped model_laws users (codes "alice") friend_set accounts
      (λ j. put_kind (user_key (codes "alice")) j _ friend_set)
      (written-IsTyped model_laws friends (codes "alice") (λ k. nothing) friend_set
        (λ j. put_kind (friend_key (codes "alice")) j _ (λ k. nothing)) empty-IsTyped)

abbrev asked : Asked
asked = record {
  raw = codes "chess";
  password = codes "pw";
  creator = codes "alice";
  room_type = codes "1:1";
  members = codes " bob ";
}

abbrev accounts_world : World platform
accounts_world = record { store = accounts; connected = true; sent = [] }

asked-CanOpen : CanOpen model_laws accounts_world asked (codes "chess_alice")
unfolding http_trim_token split_members tokens tokens_from one_of skip_ws trim_end is_ws fit str_eq
    http_validate_room_type_members http_member_count count_loop http_make_room_id user_key
    friend_key room_key room_members_key user_rooms_key
asked-CanOpen = record {
  connected = refl;
  typed = accounts-IsTyped;
  creator_known = refl;
  suits = refl;
  all_known = refl;
  id_made = refl;
  id_free = refl;
}

asked-AreTexts : AreTexts asked
asked-AreTexts = record {
  raw_plain = nul_free-NoNul (codes "chess") refl;
  password_plain = nul_free-NoNul (codes "pw") refl;
  creator_plain = nul_free-NoNul (codes "alice") refl;
  type_plain = nul_free-NoNul (codes "1:1") refl;
  members_plain = nul_free-NoNul (codes " bob ") refl;
}

opens_room_served_example :
    OpensServed model_laws 2
      (pos 5)
      (λ fd buf. pos (length buf))
      (pos 4)
      asked
      (codes "chess_alice")
      accounts_world
opens_room_served_example =
    opens_room_served model_laws accounts_world refl 2 (pos 5) (λ fd buf. pos (length buf)) (pos 4)
      asked (codes "chess_alice") refl refl (ground arith) asked-AreTexts asked-CanOpen
