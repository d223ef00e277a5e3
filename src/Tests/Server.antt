-- ===== src/Tests/Server.antt =====
-- The theorems about the server's listing, routing, clients and event loop at concrete inputs.
use zam_tok.Prelude.{
  ℕ, zero, suc, ◌≤◌, ◌<◌, pos, negsuc, is_neg, true, false, not, List, [], ◌∷◌, ◌++◌, Option, none,
  some, Bytes, codes, ◌≡◌, ◌↔◌, inl, inr, refl, ap, arith, if◌then◌else◌, Bool-cases, length,
  get_or, set, replicate,
}
use zam_tok.CString.{str_eq, fit}
use zam_tok.Codes.Rc
use zam_tok.Outcome.{returns, overruns, Returns, and_then}
use zam_tok.World.{Reply, string, array, nil, cons, Platform, World}
use zam_tok.Util.{Req}
use zam_tok.Redis.RoomList.{room_list_words, page_of, cursor_of, redis_room_list}
use zam_tok.Redis.RoomList.Ends.{Advances, ScanEnds, Listed, redis_room_list-Returns}
use zam_tok.Http.ListRooms.{list_rooms_steps, http_list_rooms}
use zam_tok.Http.ListRooms.Answered.{AnsweredFrom, http_list_rooms-AnswersOnce}
use zam_tok.Ctx.{zero_request, zero_ctx, Calls, ctx_http_insert}
use zam_tok.Ctx.Counted.{IsCounted}
use zam_tok.Hdl.Header.{hdl_header}
use zam_tok.Hdl.Header.Ends.{HeaderRead, hdl_header-Returns}
use zam_tok.Hdl.Request.{Read, received, again, receive, hdl_socket}
use zam_tok.Hdl.Request.Served.{ByReceipt, Fills, hdl_socket-ByReceipt, hdl_socket_overruns}
use zam_tok.Chat.Routed.{spaceless-Undelimited, routed, get_request, post_request, client_routes}
use zam_tok.Hdl.Request.{join, login, create, search, join_room, list_rooms, list_friends, invite}
use zam_tok.Loop.{
  Server, Arrival, arrives, no_input, readable, client_bits, hdl_accept, handle_event, Reach, here,
  next, turn,
}
use zam_tok.Loop.Waiting.{Report, events, interrupted, failed, report_loop}
use zam_tok.Loop.Waiting.Served.{Stands, report_loop-goes_on}
use zam_tok.Loop.Requests.{Settled, readable-Settled}
use zam_tok.Loop.Arrivals.{hdl_accept-admits, hdl_accept_overruns, Grows, Reach-Grows}

-- A database whose scan has two pages, with one room in the first.
abbrev scan_page : Bytes → Reply
scan_page cursor =
    if str_eq cursor (codes "0")
    then array
        (cons (string (codes "7")) (cons (array (cons (string (codes "room:chess")) nil)) nil))
    else array (cons (string (codes "0")) (cons (array nil) nil))

abbrev scan_command : List Bytes → Unit {0} → Option Reply × Unit {0}
scan_command words s = (
  (if str_eq (get_or words 0 []) (codes "SCAN")
      then some (scan_page (get_or words 1 []))
      else none),
  s,
)

abbrev scanning : Platform
scanning = record {
  Store = Unit;
  redis_command = scan_command;
  write = λ fd bytes. pos (length bytes);
  malloc = true;
  time = 7;
}

abbrev scan_world : World scanning
scan_world = record { store = tt; connected = true; sent = [] }

abbrev slots_left : Bytes → ℕ
slots_left cursor = if str_eq cursor (codes "0") then 1 else 0

scanning-Advances :
    (cursor : Bytes) → Advances slots_left cursor (scan_command (room_list_words cursor) tt).0
unfolding str_eq page_of cursor_of fit
scanning-Advances cursor = elim (Bool-cases (str_eq cursor (codes "0"))) [
  | inl e ↦ rw (e, Advances) (inr (ground arith))
  | inr e ↦ rw (e, Advances) (inl refl)
]

abbrev scanning_ends : ScanEnds scanning
scanning_ends = record { left = slots_left; advances = λ s cursor. scanning-Advances cursor }

slots_fit : slots_left (codes "0") < 2
unfolding str_eq
slots_fit = omega arith

redis_room_list-Returns_example : Returns (redis_room_list 2 64 scan_world) (Listed 64)
redis_room_list-Returns_example = redis_room_list-Returns scanning_ends 2 64 scan_world slots_fit

abbrev rooms_request : Req
rooms_request = record zero_request { str_method = codes "GET"; str_uri = codes "/rooms" }

http_list_rooms-AnswersOnce_example :
    Returns
      (http_list_rooms 2 (pos 5) [] rooms_request scan_world)
      (AnsweredFrom (pos 5) scan_world (list_rooms_steps 2 rooms_request scan_world))
http_list_rooms-AnswersOnce_example =
    http_list_rooms-AnswersOnce refl (pos 5) refl rooms_request scanning_ends 2 [] scan_world
      slots_fit

hdl_header-Returns_example :
    Returns
      (hdl_header (codes "GET / HTTP/1.1\r\nContent-Type: a\r\n") 200 rooms_request)
      HeaderRead
hdl_header-Returns_example =
    hdl_header-Returns (codes "GET / HTTP/1.1\r\nContent-Type: a\r\n") 200 rooms_request
      (omega arith)

-- The second read brings a request.
abbrev reads : ℕ → Read
reads zero = again
reads (suc i) = received (codes "GET /rooms HTTP/1.1\r\n\r\n")

reads_fit : Fills (receive 3 0 reads) → ⊥
unfolding receive
reads_fit h = omega arith

hdl_socket-ByReceipt_example :
    Returns
      (hdl_socket 2 (pos 5) reads scan_world)
      (ByReceipt (receive 3 0 reads) (pos 5) scan_world)
hdl_socket-ByReceipt_example =
    hdl_socket-ByReceipt scanning_ends refl 2 slots_fit (pos 5) refl reads scan_world reads_fit

abbrev long_reads : ℕ → Read
long_reads i = received (replicate 1024 65)

hdl_socket_overruns_example :
    (hdl_socket 2 (pos 5) long_reads scan_world ≡ overruns) ↔ Fills (receive 3 0 long_reads)
hdl_socket_overruns_example =
    hdl_socket_overruns scanning_ends refl 2 slots_fit (pos 5) refl long_reads scan_world

abbrev fine : Calls
fine = record { calloc = true; lock = true; unlock = true }

abbrev arrival : Arrival
arrival = record { fd = pos 5; addr = codes "a"; calls = fine; added = true }

zero_ctx-IsCounted : IsCounted zero_ctx
zero_ctx-IsCounted = record { counted = refl; bounded = omega arith }

abbrev idle_server : Server scanning
idle_server = record {
  world = scan_world;
  ctx = zero_ctx;
  client_fds = replicate client_bits false;
  watched = pos 3 ∷ [];
  closed = [];
}

abbrev busy_server : Server scanning
busy_server = record idle_server {
  ctx = (ctx_http_insert fine zero_ctx (pos 5) (codes "a")).1;
  client_fds = set (replicate client_bits false) 5 true;
  watched = pos 5 ∷ pos 3 ∷ [];
}

hdl_accept-admits_example :
    hdl_accept arrival idle_server
    ≡ returns (
      Rc.ok,
      record idle_server {
        ctx = (ctx_http_insert fine zero_ctx (pos 5) (codes "a")).1;
        watched = pos 5 ∷ pos 3 ∷ [];
        client_fds = set (replicate client_bits false) 5 true;
      },
    )
hdl_accept-admits_example = hdl_accept-admits arrival idle_server 5 refl refl (omega arith)

abbrev late_arrival : Arrival
late_arrival = record arrival { fd = pos 96 }

hdl_accept_overruns_example :
    (hdl_accept late_arrival idle_server ≡ overruns) ↔ ((true ≡ true) × (client_bits ≤ 96))
hdl_accept_overruns_example = hdl_accept_overruns late_arrival idle_server 96 refl

one_turn : Reach idle_server busy_server
unfolding handle_event
one_turn = next here (
    turn 2 (arrives arrival)
      (ap (λ o. and_then o (λ out. returns (not (is_neg out.0), out.1))) hdl_accept-admits_example))

Reach-Grows_example : Grows zero_ctx busy_server.ctx
Reach-Grows_example = Reach-Grows idle_server busy_server one_turn

readable-Settled_example :
    Returns
      (handle_event 2 (readable (pos 5) reads) busy_server)
      (Settled (receive 3 0 reads) 5 busy_server)
readable-Settled_example =
    readable-Settled scanning_ends refl 2 slots_fit 5 reads busy_server (omega arith) reads_fit

abbrev reports : List Report
reports =
    interrupted
    ∷ events (arrives arrival ∷ readable (pos 5) reads ∷ [])
    ∷ failed
    ∷ events (no_input (pos 5) ∷ [])
    ∷ []

report_loop-goes_on_example :
    Returns
      (report_loop 2 (pos 3) reports (negsuc 0) idle_server)
      (Stands 2 (pos 3) (negsuc 0) reports idle_server)
report_loop-goes_on_example =
    report_loop-goes_on scanning_ends refl 2 slots_fit (pos 3) reports idle_server (
      tt,
      ((inr (5, refl, omega arith), ((5, refl, omega arith, reads_fit), tt)), (tt, ((tt, tt), tt))),
    )

client_routes_example :
    (routed (post_request (codes "/join") (codes "{}")) ≡ some join)
    × (routed (post_request (codes "/login") (codes "{}")) ≡ some login)
    × (routed (post_request (codes "/room") (codes "{}")) ≡ some create)
    × (routed (post_request (codes "/room/join") (codes "{}")) ≡ some join_room)
    × (routed (post_request (codes "/room/invite") (codes "{}")) ≡ some invite)
    × (routed (get_request (codes "/rooms")) ≡ some list_rooms)
    × (routed (get_request (fit 128 (codes "/room?id=" ++ codes "chess"))) ≡ some search)
    × (routed (get_request (fit 128 (codes "/friends?user_id=" ++ codes "chess")))
        ≡ some list_friends)
client_routes_example =
    client_routes (codes "{}") (codes "chess") (spaceless-Undelimited (codes "chess") refl)
