-- ===== src/Http/ListRooms/Answered.antt =====
-- `http_list_rooms` answers a request by exactly one message.
use zam_tok.Prelude.{
  ℕ, ◌<◌, ℤ, is_neg, is_nat, true, false, List, Option, none, some, Bytes, codes, ◌≡◌, inl, inr,
  refl, arith, Bool-cases,
}
use zam_tok.Codes.Size
use zam_tok.Codes.{ErrCode}
use zam_tok.Util.{Req}
use zam_tok.Step.{Result, fail}
use zam_tok.Outcome.{Outcome, returns, out_of_fuel, overruns, Returns}
use zam_tok.World.{Platform, World}
use zam_tok.Redis.Keys.{Room}
use zam_tok.Redis.RoomList.{redis_room_list}
use zam_tok.Redis.RoomList.Ends.{ScanEnds, Listed, redis_room_list-Returns}
use zam_tok.Redis.Issued.{no_invariant, Same-refl}
use zam_tok.Redis.Issued.Rooms.{Leaves, redis_room_list-Leaves}
use zam_tok.Http.Answers.{AnswersOnce, proper-AnswersOnce}
use zam_tok.Http.Respond.Sent.{InRange}
use zam_tok.Http.Users.{is_method}
use zam_tok.Http.Lists.{print_list}
use zam_tok.Http.ListRooms.{
  room_entries, list_result, rooms_result, list_rooms_steps, http_list_rooms,
}

list_result-InRange : (o : Option Bytes) → InRange (list_result o)
list_result-InRange none = (omega arith, omega arith)
list_result-InRange (some t) = tt

rooms_result-InRange :
    {P : Platform} (out : (ℤ × List Room) × World P) → InRange (rooms_result out).0
unfolding rooms_result
rooms_result-InRange ((rc, rooms), w) = elim (Bool-cases (is_nat rc 0)) [
  | inl e ↦ rw e (list_result-InRange (print_list (room_entries rooms)))
  | inr e ↦ rw e (omega arith, omega arith)
]

-- The result of the steps is answered once.
abbrev pub AnsweredFrom :
    {P : Platform} → ℤ → World P → Outcome (Result (Option Bytes) × World P) → ℤ × World P → Type 0
AnsweredFrom {P} socket w o out =
    (r : Result (Option Bytes) × World P) × (o ≡ returns r) × AnswersOnce socket (λ v. r) w out

module _ {P : Platform} (room : P.malloc ≡ true) (socket : ℤ) (up : is_neg socket ≡ false)
    (q : Req) where
  answered :
      (fuel : ℕ) (buf : Bytes) (w : World P) (o : Outcome ((ℤ × List Room) × World P))
      → is_method (codes "GET") 3 q ≡ true
      → redis_room_list fuel Size.room_count w ≡ o
      → Leaves (no_invariant P) w o
      → Returns o (Listed Size.room_count)
      → Returns
          (http_list_rooms fuel socket buf q w)
          (AnsweredFrom socket w (list_rooms_steps fuel q w))
  unfolding http_list_rooms list_rooms_steps rooms_result
  answered fuel buf w (returns (l, v)) get e h k =
      rw (up, get, e)
        (
          rooms_result (l, v),
          refl,
          proper-AnswersOnce room socket up q (λ u. rooms_result (l, v)) w
              (rooms_result-InRange (l, v), h),
        )
  answered fuel buf w out_of_fuel get e h k = absurd k
  answered fuel buf w overruns get e h k = absurd k

  refused :
      (fuel : ℕ) (buf : Bytes) (w : World P)
      → is_method (codes "GET") 3 q ≡ false
      → Returns
          (http_list_rooms fuel socket buf q w)
          (AnsweredFrom socket w (list_rooms_steps fuel q w))
  unfolding http_list_rooms list_rooms_steps
  refused fuel buf w other =
      let r : Result (Option Bytes) × World P = (fail 405 ErrCode.method_not_allowed, w) in
      rw (up, other)
        (
          r,
          refl,
          proper-AnswersOnce room socket up q (λ u. r) w
              ((omega arith, omega arith), Same-refl (no_invariant P) w),
        )

  -- Where `malloc` succeeds, each reply to `SCAN` takes the scan forward, and the fuel is more than the
  -- slots left at the first cursor, `http_list_rooms` returns on an open socket, and answers the request
  -- by exactly one message, whatever else `write` and Redis answer: it begins with the status of the
  -- result of its steps, its body is the text of that result, cut to 1023 bytes, and the database is as
  -- the steps left it.
  pub http_list_rooms-AnswersOnce :
      (E : ScanEnds P) (fuel : ℕ) (buf : Bytes) (w : World P)
      → E.left (codes "0") < fuel
      → Returns
          (http_list_rooms fuel socket buf q w)
          (AnsweredFrom socket w (list_rooms_steps fuel q w))
  http_list_rooms-AnswersOnce E fuel buf w h = elim (Bool-cases (is_method (codes "GET") 3 q)) [
    | inl get ↦
        answered fuel buf w (redis_room_list fuel Size.room_count w) get refl
          (redis_room_list-Leaves (no_invariant P) fuel Size.room_count w)
          (redis_room_list-Returns E fuel Size.room_count w h)
    | inr other ↦ refused fuel buf w other
  ]
