-- ===== src/Http/Helpers.antt =====
-- The static functions of src/SERVER/zt_http.c.
use zam_tok.Prelude.{
  ℕ, ◌+◌, ℤ, is_neg, is_nat, true, false, List, [], ◌∷◌, ◌++◌, Option, none, some, Bytes, codes,
  ◌==◌, leb, if◌then◌else◌, length, drop,
}
use zam_tok.CString.{str_eq, fit, strstr, take_until, skip_ws, trim_end, tokens, one_of}
use zam_tok.Codes.Rc
use zam_tok.Codes.Size
use zam_tok.World.{Platform, World}
use zam_tok.Redis.Users.{redis_user_is_friend}

-- `http_get_body`: behind the first empty line, or else everything.
unfoldable pub http_get_body : Bytes → Bytes
unfolding strstr
http_get_body buf = elim (strstr buf (codes "\r\n\r\n")) [
  | some p ↦ drop 4 p
  | none ↦ elim (strstr buf (codes "\n\n")) [ some p ↦ drop 2 p | none ↦ buf ]
]

-- `http_trim_token`
unfoldable pub http_trim_token : Bytes → Bytes
unfolding skip_ws trim_end
http_trim_token str = trim_end (skip_ws str)

-- `out[0] == '\0'` is refused.
abbrev pub nonempty : Bytes → Option Bytes
nonempty [] = none
nonempty (c ∷ s) = some (c ∷ s)

-- `http_query_value`: `some v` is `ZT_RC_OK` with `v` in the buffer, `none` is `ZT_RC_ARG_INVALID`.
unfoldable pub http_query_value : Bytes → Bytes → ℕ → Option Bytes
unfolding strstr take_until one_of
http_query_value uri key out_size =
    let pattern = fit 64 (key ++ codes "=") in
    if out_size == 0 then none else elim (strstr uri pattern) [
      | none ↦ none
      | some q ↦
          nonempty (fit out_size (take_until (one_of (codes "& ")) (drop (length pattern) q)))
    ]

-- The tokens between commas of the member list, which is first copied to an array.
unfoldable pub split_members : Bytes → List Bytes
unfolding fit tokens one_of
split_members members = tokens (one_of (codes ",")) (fit Size.room_members members)

unfoldable pub count_loop : List Bytes → ℕ → ℕ
count_loop [] count = count
count_loop (token ∷ rest) count =
    count_loop rest (elim (http_trim_token token) [ [] ↦ count | c ∷ name ↦ count + 1 ])

-- `http_member_count`; an empty string has no token.
unfoldable pub http_member_count : Bytes → ℕ
http_member_count members = count_loop (split_members members) 0

unfoldable pub http_validate_room_type_members : Bytes → Bytes → ℤ
http_validate_room_type_members room_type members =
    let count = http_member_count members in
    if str_eq room_type (codes "1:1")
    then (if count == 1 then Rc.ok else Rc.arg_invalid)
    else if str_eq room_type (codes "1:N")
    then (if leb 1 count then Rc.ok else Rc.arg_invalid)
    else Rc.arg_invalid

module _ {P : Platform} where
  unfoldable pub friends_loop : Bytes → List Bytes → World P → ℤ × World P
  friends_loop user_id [] w = (Rc.ok, w)
  friends_loop user_id (token ∷ rest) w = elim (http_trim_token token) [
    | [] ↦ friends_loop user_id rest w
    | c ∷ name ↦
        let asked = redis_user_is_friend user_id (c ∷ name) w in
        elim (is_neg asked.0) [
          | true ↦ (Rc.redis, asked.1)
          | false ↦ elim (is_nat asked.0 0) [
            | true ↦ (Rc.fail, asked.1)
            | false ↦ friends_loop user_id rest asked.1
          ]
        ]
  ]

  unfoldable pub http_members_are_friends : Bytes → Bytes → World P → ℤ × World P
  http_members_are_friends user_id members = friends_loop user_id (split_members members)

-- `http_make_room_id`: `none` is `ZT_RC_ARG_INVALID`.
unfoldable pub http_make_room_id : Bytes → Bytes → ℕ → Option Bytes
http_make_room_id room_id user_id out_size =
    let whole = room_id ++ (codes "_" ++ user_id) in
    if out_size == 0 then none else if leb out_size (length whole) then none else some whole
