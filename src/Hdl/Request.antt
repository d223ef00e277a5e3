-- ===== src/Hdl/Request.antt =====
-- `hdl_socket` of src/SERVER/zt_hdl.c: reading a request, and handing it to its handler.
pub mod Served
use zam_tok.Prelude.{
  ℕ, ◌+◌, zero, suc, ◌-◌, ◌*◌, ◌≤◌, ◌<◌, ℤ, pos, negsuc, is_neg, is_pos, is_nat, Bool, true, false,
  not, ◌&&◌, ◌||◌, List, [], ◌∷◌, ◌++◌, Option, none, some, Bytes, codes, ◌≡◌, ◌≢◌, ◌↔◌, ◌⊎◌, inl,
  inr, refl, sym, ap, ◌∙◌, subst, arith, ◌==◌, ltb, leb, if◌then◌else◌, Bool-cases, Option-cases,
  length, take, drop, get_or, set, append_assoc, append-nil, length-append, All, replicate,
}
use zam_tok.CString.{str_eq, strn_eq, fit, strtok, one_of, take_until}
use zam_tok.Codes.Rc
use zam_tok.Codes.Size
use zam_tok.Util.{no_header, Req}
use zam_tok.Outcome.{Outcome, returns, out_of_fuel, overruns, and_then}
use zam_tok.World.{Platform, World}
use zam_tok.Hdl.Send.{hdl_bad_request}
use zam_tok.Hdl.Header.{hdl_header_mime, hdl_header}
use zam_tok.Http.Users.{http_join, http_login}
use zam_tok.Http.Rooms.{http_create_room, http_search_room, http_join_room, http_invite_room}
use zam_tok.Http.Lists.{http_list_friends}
use zam_tok.Http.ListRooms.{http_list_rooms}

-- What one `read` does: it fills the buffer with the bytes, fails with EWOULDBLOCK, EAGAIN or EINTR, or
-- fails otherwise. No bytes are the end of the stream.
pub data Read : Type 0 where
  received : Bytes → Read
  again : Read
  broken : Read

-- What the attempts come to: nothing after `RETRY_MAX_CNT` of them, the end or an error, or bytes.
pub data Receipt : Type 0 where
  gave_up : Receipt
  ended : Receipt
  got : Bytes → Receipt

-- The attempts; the first argument is how many are left.
unfoldable pub receive : ℕ → ℕ → (ℕ → Read) → Receipt
receive zero i read = gave_up
receive (suc n) i read = elim (read i) [
  | again ↦ receive n (i + 1) read
  | broken ↦ ended
  | received bytes ↦ elim bytes [ [] ↦ ended | c ∷ s ↦ got (c ∷ s) ]
]

-- Method, URI and version, by three calls of `strtok`.
unfoldable pub request_line : Bytes → Option (Bytes × Bytes × Bytes)
unfolding strtok one_of
request_line parse_buf = elim (strtok (one_of (codes " ")) parse_buf) [
  | none ↦ none
  | some (method, r) ↦ elim (strtok (one_of (codes " ")) r) [
    | none ↦ none
    | some (uri, r') ↦ elim (strtok (one_of (codes "\r\n")) r') [
      | none ↦ none
      | some (version, r'') ↦ some (method, uri, version)
    ]
  ]
]

-- The request that the line fills.
unfoldable pub request_of : Bytes → Bytes × Bytes × Bytes → Req
unfolding fit
request_of read_buf (method, uri, version) = record {
  str_method = fit Size.method method;
  str_uri = fit Size.uri uri;
  str_version = fit Size.version version;
  t_content_headers = replicate Size.header_count no_header;
  i_content_header_count = 0;
  str_body = fit 4096 read_buf;
}

-- Where a request goes.
pub data Route : Type 0 where
  join login create search join_room list_rooms list_friends invite other : Route

-- The tests of `hdl_socket`, in order.
unfoldable pub route_of : Req → Route
unfolding str_eq strn_eq
route_of q =
    if str_eq q.str_uri (codes "/join")
    then join
    else if str_eq q.str_uri (codes "/login")
    then login
    else if str_eq q.str_uri (codes "/room") && strn_eq 4 q.str_method (codes "POST")
    then create
    else if strn_eq 9 q.str_uri (codes "/room?id=") && strn_eq 3 q.str_method (codes "GET")
    then search
    else if str_eq q.str_uri (codes "/room/join") && strn_eq 4 q.str_method (codes "POST")
    then join_room
    else if str_eq q.str_uri (codes "/rooms") && strn_eq 3 q.str_method (codes "GET")
    then list_rooms
    else if strn_eq 17 q.str_uri (codes "/friends?user_id=") && strn_eq 3 q.str_method (codes "GET")
    then list_friends
    else if str_eq q.str_uri (codes "/room/invite") && strn_eq 4 q.str_method (codes "POST")
    then invite
    else other

-- A request for "/" is one for "/indx.html".
unfoldable pub default_page : Req → Req
unfolding str_eq fit
default_page q =
    if str_eq q.str_uri (codes "/")
    then record q { str_uri = fit Size.uri (codes "/indx.html") }
    else q

-- The request with its content type, which `hdl_header_mime` writes to the first content header.
unfoldable pub with_mime : Req → ℤ × Req
with_mime q =
    let mime = hdl_header_mime Size.value q.str_uri in
    let first = get_or q.t_content_headers q.i_content_header_count no_header in
    (
      mime.0,
      record q {
        t_content_headers =
            set q.t_content_headers q.i_content_header_count (record first { str_value = mime.1 });
      },
    )

module _ {P : Platform} where
  -- `if (rc < 0) return ZT_RC_SOCKET; break;`
  abbrev pub finish : ℤ × World P → Outcome (ℤ × World P)
  finish (rc, w) = returns ((if is_neg rc then Rc.socket else Rc.ok), w)

  -- A request that has no handler: its header is read, and nothing is sent.
  unfoldable pub read_only : Bytes → Req → World P → Outcome (ℤ × World P)
  unfolding default_page with_mime
  read_only read_buf q w =
      let typed = with_mime (default_page q) in
      let status : ℕ = if is_nat typed.0 0 then 200 else 400 in
      and_then (hdl_header read_buf status typed.1) (λ out. finish (out.0.0, w))

  unfoldable pub dispatch : ℕ → Route → ℤ → Bytes → Req → World P → Outcome (ℤ × World P)
  dispatch fuel join fd buf q w = finish (http_join fd buf q w)
  dispatch fuel login fd buf q w = finish (http_login fd buf q w)
  dispatch fuel create fd buf q w = finish (http_create_room fd buf q w)
  dispatch fuel search fd buf q w = finish (http_search_room fd buf q w)
  dispatch fuel join_room fd buf q w = finish (http_join_room fd buf q w)
  dispatch fuel list_rooms fd buf q w = and_then (http_list_rooms fuel fd buf q w) finish
  dispatch fuel list_friends fd buf q w = finish (http_list_friends fd buf q w)
  dispatch fuel invite fd buf q w = finish (http_invite_room fd buf q w)
  dispatch fuel other fd buf q w = read_only buf q w

  -- What follows a read that is a string.
  unfoldable pub handle_text : ℕ → ℤ → Bytes → World P → Outcome (ℤ × World P)
  handle_text fuel fd read_buf w = elim (request_line (fit 1024 read_buf)) [
    | none ↦ returns (Rc.fail, hdl_bad_request fd w)
    | some line ↦ let q = request_of read_buf line in dispatch fuel (route_of q) fd read_buf q w
  ]

  -- What follows the attempts. The NUL is written behind the bytes, which may fill the buffer of 1024.
  unfoldable pub handle_receipt : ℕ → ℤ → Receipt → World P → Outcome (ℤ × World P)
  unfolding take_until
  handle_receipt fuel fd gave_up w = returns (Rc.ok, w)
  handle_receipt fuel fd ended w = returns (Rc.fail, w)
  handle_receipt fuel fd (got bytes) w =
      if leb 1024 (length bytes)
      then overruns
      else handle_text fuel fd (take_until (λ c. c == 0) bytes) w

  -- `RETRY_MAX_CNT` is 3.
  unfoldable pub hdl_socket : ℕ → ℤ → (ℕ → Read) → World P → Outcome (ℤ × World P)
  unfolding receive
  hdl_socket fuel client_fd read w =
      if is_neg client_fd
      then returns (Rc.arg_invalid, w)
      else handle_receipt fuel client_fd (receive 3 0 read) w
