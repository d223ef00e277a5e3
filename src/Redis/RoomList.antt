-- ===== src/Redis/RoomList.antt =====
-- `redis_room_list`, `redis_connect` and `redis_disconnect` of src/SERVER/zt_redis.c.
pub mod Ends
use zam_tok.Prelude.{
  ℕ, ◌+◌, zero, suc, ◌-◌, ◌*◌, ◌≤◌, ◌<◌, ℤ, pos, negsuc, is_neg, is_pos, is_nat, Bool, true, false,
  not, ◌&&◌, ◌||◌, List, [], ◌∷◌, ◌++◌, Option, none, some, Bytes, codes, ◌≡◌, ◌≢◌, ◌↔◌, ◌⊎◌, inl,
  inr, refl, sym, ap, ◌∙◌, subst, arith, ◌==◌, ltb, leb, if◌then◌else◌, Bool-cases, Option-cases,
  length, take, drop, get_or, set, append_assoc, append-nil, length-append, All,
}
use zam_tok.CString.{fit, strchr}
use zam_tok.Codes.Rc
use zam_tok.Outcome.{Outcome, returns, out_of_fuel}
use zam_tok.World.{Reply, array, replies, str_of, Platform, World}
use zam_tok.Redis.Keys.{Room, zero_room}
use zam_tok.Redis.Calls.{command}
use zam_tok.Redis.Users.{elements_of}
use zam_tok.Redis.Rooms.{apart, redis_room_get}

-- `REDIS_ROOM_LIST_CMD`
abbrev pub room_list_words : Bytes → List Bytes
room_list_words cursor =
    codes "SCAN" ∷ cursor ∷ codes "MATCH" ∷ codes "room:*" ∷ codes "COUNT" ∷ codes "50" ∷ []

-- `pt_reply->element[0]->str ? pt_reply->element[0]->str : "0"`, in an array of 32 bytes.
unfoldable pub cursor_of : Reply → Bytes
cursor_of r = fit 32 (elim (str_of r) [ none ↦ codes "0" | some s ↦ s ])

-- The new cursor and the keys that a reply to `SCAN` holds, or `none` where the code gives up.
unfoldable pub page_of : Option Reply → Option (Bytes × List Reply)
unfolding cursor_of
page_of (some (array rs)) = elim (replies rs) [
  | [] ↦ none
  | r ∷ more ↦ elim more [ [] ↦ none | keys ∷ others ↦ some (cursor_of r, elements_of keys) ]
]
page_of _ = none

-- `cursor[0] != '0'`
abbrev pub goes_on : Bytes → Bool
goes_on [] = true
goes_on (c ∷ s) = not (c == b'0')

-- What stands behind the first colon of a key, if anything does.
unfoldable pub id_of_key : Reply → Option Bytes
id_of_key r = elim (str_of r) [
  | none ↦ none
  | some key ↦ elim (strchr key b':') [
    | none ↦ none
    | some p ↦ elim (drop 1 p) [ [] ↦ none | c ∷ s ↦ some (c ∷ s) ]
  ]
]

module _ {P : Platform} where
  -- The loop over the keys of one page; the first argument is the room left, `max_rooms - count`.
  unfoldable pub key_loop : ℕ → List Reply → World P → List Room × World P
  key_loop room [] w = ([], w)
  key_loop zero (r ∷ rs) w = ([], w)
  key_loop (suc room) (r ∷ rs) w = elim (id_of_key r) [
    | none ↦ key_loop (suc room) rs w
    | some id ↦
        let got = redis_room_get (apart id) zero_room w in
        elim (is_nat got.0.0 0) [
          | true ↦ let rest = key_loop room rs got.1 in (got.0.1 ∷ rest.0, rest.1)
          | false ↦ key_loop (suc room) rs got.1
        ]
  ]

  -- The loop over the pages, with the rooms that are filled so far.
  unfoldable pub scan_loop :
      ℕ → ℕ → Bytes → List Room → World P → Outcome ((ℤ × List Room) × World P)
  scan_loop zero max_rooms cursor found w = out_of_fuel
  scan_loop (suc fuel) max_rooms cursor found w =
      let asked = command (room_list_words cursor) w in
      elim (page_of asked.0) [
        | none ↦ returns ((Rc.redis, found), asked.1)
        | some (next, keys) ↦
            let got = key_loop (max_rooms - length found) keys asked.1 in
            let rooms = found ++ got.0 in
            elim (goes_on next && ltb (length rooms) max_rooms) [
              | true ↦ scan_loop fuel max_rooms next rooms got.1
              | false ↦ returns ((Rc.ok, rooms), got.1)
            ]
      ]

  -- The entries of `out_rooms` that are filled; the others are zero.
  unfoldable pub redis_room_list : ℕ → ℕ → World P → Outcome ((ℤ × List Room) × World P)
  redis_room_list fuel max_rooms w =
      if not w.connected || leb max_rooms 0
      then returns ((Rc.arg_invalid, []), w)
      else scan_loop fuel max_rooms (codes "0") [] w

  -- `connects` is whether `redisConnect` returns a context without an error for a host and a port; a
  -- context with an error is freed at once.
  unfoldable pub redis_connect : (Bytes → ℤ → Bool) → Option Bytes → ℤ → World P → ℤ × World P
  redis_connect connects str_host i_port w =
      let host : Bytes = elim str_host [ none ↦ codes "127.0.0.1" | some s ↦ s ] in
      let port = if is_pos i_port then i_port else pos 6379 in
      if connects host port
      then (Rc.ok, record w { connected = true })
      else (Rc.redis, record w { connected = false })

  unfoldable pub redis_disconnect : World P → World P
  redis_disconnect w = record w { connected = false }
