-- ===== src/Http/ListRooms.antt =====
-- `http_list_rooms` of src/SERVER/zt_http.c.
pub mod Answered
use zam_tok.Prelude.{
  ℕ, ◌+◌, zero, suc, ◌-◌, ◌*◌, ◌≤◌, ◌<◌, ℤ, pos, negsuc, is_neg, is_pos, is_nat, Bool, true, false,
  not, ◌&&◌, ◌||◌, List, [], ◌∷◌, ◌++◌, Option, none, some, Bytes, codes, ◌≡◌, ◌≢◌, ◌↔◌, ◌⊎◌, inl,
  inr, refl, sym, ap, ◌∙◌, subst, arith, ◌==◌, ltb, leb, if◌then◌else◌, Bool-cases, Option-cases,
  length, take, drop, get_or, set, append_assoc, append-nil, length-append, All,
}
use zam_tok.Codes.Rc
use zam_tok.Codes.Size
use zam_tok.Codes.{ErrCode}
use zam_tok.Util.{Req}
use zam_tok.Step.{Result, ok, fail}
use zam_tok.Outcome.{Outcome, returns, and_then}
use zam_tok.World.{Platform, World}
use zam_tok.Redis.Keys.{Room, is_empty}
use zam_tok.Redis.RoomList.{redis_room_list}
use zam_tok.Http.Respond.{respond}
use zam_tok.Http.Users.{is_method}
use zam_tok.Http.Lists.{print_list}

-- `LIST_ROOMS_DATA_FMT`
unfoldable pub room_entry : Room → Bytes
room_entry r =
    codes "{\"room_id\":\""
    ++ (r.room_id
        ++ (codes "\",\"user_id\":\""
            ++ (r.creator_id ++ (codes "\",\"room_type\":\"" ++ (r.room_type ++ codes "\"}")))))

-- The loop stops at the first entry without an id.
unfoldable pub room_entries : List Room → List Bytes
room_entries [] = []
room_entries (r ∷ rest) =
    let more = room_entries rest in if is_empty r.room_id then [] else room_entry r ∷ more

-- What is answered for a list that was printed, or not.
abbrev pub list_result : Option Bytes → Result (Option Bytes)
list_result none = fail 500 ErrCode.server_error
list_result (some text) = ok (some text)

module _ {P : Platform} where
  -- What is answered once the rooms are listed.
  unfoldable pub rooms_result : (ℤ × List Room) × World P → Result (Option Bytes) × World P
  rooms_result ((rc, rooms), w) = (
    (if is_nat rc 0
        then list_result (print_list (room_entries rooms))
        else fail 500 ErrCode.server_error),
    w,
  )

  unfoldable pub list_rooms_steps : ℕ → Req → World P → Outcome (Result (Option Bytes) × World P)
  unfolding rooms_result
  list_rooms_steps fuel t_request w =
      if is_method (codes "GET") 3 t_request
      then and_then (redis_room_list fuel Size.room_count w) (λ out. returns (rooms_result out))
      else returns (fail 405 ErrCode.method_not_allowed, w)

  unfoldable pub http_list_rooms : ℕ → ℤ → Bytes → Req → World P → Outcome (ℤ × World P)
  http_list_rooms fuel socket buf t_request w =
      if is_neg socket
      then returns (Rc.arg_invalid, w)
      else and_then (list_rooms_steps fuel t_request w)
          (λ out. returns (respond socket t_request out))
