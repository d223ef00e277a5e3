-- ===== src/Hdl/Request/Served.antt =====
-- What `hdl_socket` of src/SERVER/zt_hdl.c does with what it reads.
use zam_tok.Prelude.{
  ℕ, ◌≤◌, ◌<◌, ℤ, is_neg, true, false, [], ◌∷◌, ◌++◌, Option, none, some, Bytes, codes, ◌≡◌, ◌↔◌,
  ◌⊎◌, inl, inr, refl, ap, arith, ◌==◌, leb, Bool-cases, length, leb→le,
}
use zam_tok.CString.{fit, take_until}
use zam_tok.Codes.Rc
use zam_tok.Util.{Req}
use zam_tok.Step.{Result}
use zam_tok.Outcome.{overruns, Returns, Returns-and_then, Returns-ne-overruns}
use zam_tok.World.{Platform, World}
use zam_tok.Socket.{socket_send, write_all}
use zam_tok.Redis.RoomList.Ends.{ScanEnds}
use zam_tok.Hdl.Send.{hdl_bad_request}
use zam_tok.Hdl.Header.{hdl_header_mime, hdl_header}
use zam_tok.Hdl.Header.Ends.{HeaderRead, hdl_header-Returns}
use zam_tok.Hdl.Request.{
  Read, Receipt, gave_up, ended, got, receive, request_line, request_of, Route, join, login, create,
  search, join_room, list_rooms, list_friends, invite, other, route_of, default_page, with_mime,
  finish, read_only, dispatch, handle_text, handle_receipt, hdl_socket,
}
use zam_tok.Http.Answers.{AnswersOnce, handlers-AnswersOnce}
use zam_tok.Http.Lists.Friends.{http_list_friends-AnswersOnce}
use zam_tok.Http.ListRooms.{http_list_rooms, list_rooms_steps}
use zam_tok.Http.ListRooms.Answered.{AnsweredFrom, http_list_rooms-AnswersOnce}

-- The call returned `ZT_RC_OK`, and exactly one message went to the client.
abbrev pub Answered : {P : Platform} → ℤ → World P → ℤ × World P → Type 0
Answered fd w (rc, w') = (rc ≡ Rc.ok) × (m : Bytes) × (w'.sent ≡ w.sent ++ (fd, m) ∷ [])

-- What becomes of a request by its route.
abbrev pub ByRoute : {P : Platform} → Route → ℤ → World P → ℤ × World P → Type 0
ByRoute other fd w out = out ≡ (Rc.ok, w)
ByRoute join fd w out = Answered fd w out
ByRoute login fd w out = Answered fd w out
ByRoute create fd w out = Answered fd w out
ByRoute search fd w out = Answered fd w out
ByRoute join_room fd w out = Answered fd w out
ByRoute list_rooms fd w out = Answered fd w out
ByRoute list_friends fd w out = Answered fd w out
ByRoute invite fd w out = Answered fd w out

abbrev pub bad_request : Bytes
bad_request = codes "HTTP/1.1 400 Bad Request\r\nContent-Length: 0\r\n\r\n"

-- What becomes of a text by its request line.
abbrev pub ByLine :
    {P : Platform} → Bytes → Option (Bytes × Bytes × Bytes) → ℤ → World P → ℤ × World P → Type 0
ByLine text none fd w out = out ≡ (Rc.fail, record w { sent = w.sent ++ (fd, bad_request) ∷ [] })
ByLine text (some line) fd w out = ByRoute (route_of (request_of text line)) fd w out

-- The text that bytes hold: up to the first NUL.
abbrev pub text_of : Bytes → Bytes
text_of bytes = take_until (λ c. c == 0) bytes

-- What becomes of a call by what was read.
abbrev pub ByReceipt : {P : Platform} → Receipt → ℤ → World P → ℤ × World P → Type 0
ByReceipt gave_up fd w out = out ≡ (Rc.ok, w)
ByReceipt ended fd w out = out ≡ (Rc.fail, w)
ByReceipt (got bytes) fd w out =
    ByLine (text_of bytes) (request_line (fit 1024 (text_of bytes))) fd w out

-- The bytes fill the buffer.
abbrev pub Fills : Receipt → Type 0
Fills gave_up = ⊥
Fills ended = ⊥
Fills (got bytes) = 1024 ≤ length bytes

Fills-cases : (r : Receipt) → Fills r ⊎ (Fills r → ⊥)
Fills-cases gave_up = inr (λ h. h)
Fills-cases ended = inr (λ h. h)
Fills-cases (got bytes) = elim (Bool-cases (leb 1024 (length bytes))) [
  | inl e ↦ inl (leb→le 1024 (length bytes) e)
  | inr e ↦ inr (λ h. ground arith)
]

finish-Answered :
    {P : Platform} {socket : ℤ} {m : World P → Result (Option Bytes) × World P} {w : World P}
    (out : ℤ × World P)
    → AnswersOnce socket m w out
    → Returns (finish out) (Answered socket w)
finish-Answered (rc, v) a = rw a.code_ok (refl, a.message, a.sent_once)

module _ {P : Platform} (E : ScanEnds P) (room : P.malloc ≡ true) (fuel : ℕ)
    (enough : E.left (codes "0") < fuel) (fd : ℤ) (up : is_neg fd ≡ false) where
  read_only-Returns :
      (buf : Bytes) (q : Req) (w : World P) → Returns (read_only buf q w) (λ out. out ≡ (Rc.ok, w))
  unfolding read_only with_mime hdl_header_mime
  read_only-Returns buf q w =
      Returns-and_then (hdl_header buf 200 (with_mime (default_page q)).1) _ HeaderRead _
        (hdl_header-Returns buf 200 (with_mime (default_page q)).1 (omega arith)) (λ out h. rw h.0)

  dispatch-ByRoute :
      (r : Route) (buf : Bytes) (q : Req) (w : World P)
      → Returns (dispatch fuel r fd buf q w) (ByRoute r fd w)
  unfolding dispatch
  dispatch-ByRoute join buf q w = finish-Answered _ (handlers-AnswersOnce room fd up q buf w).0
  dispatch-ByRoute login buf q w = finish-Answered _ (handlers-AnswersOnce room fd up q buf w).1
  dispatch-ByRoute create buf q w = finish-Answered _ (handlers-AnswersOnce room fd up q buf w).2
  dispatch-ByRoute search buf q w = finish-Answered _ (handlers-AnswersOnce room fd up q buf w).3
  dispatch-ByRoute join_room buf q w = finish-Answered _ (handlers-AnswersOnce room fd up q buf w).4
  dispatch-ByRoute invite buf q w = finish-Answered _ (handlers-AnswersOnce room fd up q buf w).5
  dispatch-ByRoute list_friends buf q w =
      finish-Answered _ (http_list_friends-AnswersOnce q fd buf w room up)
  dispatch-ByRoute list_rooms buf q w =
      Returns-and_then (http_list_rooms fuel fd buf q w) finish
        (AnsweredFrom fd w (list_rooms_steps fuel q w)) (Answered fd w)
        (http_list_rooms-AnswersOnce room fd up q E fuel buf w enough)
        (λ out h. finish-Answered out h.2)
  dispatch-ByRoute other buf q w = read_only-Returns buf q w

  hdl_bad_request_lem :
      (w : World P) → hdl_bad_request fd w ≡ record w { sent = w.sent ++ (fd, bad_request) ∷ [] }
  unfolding hdl_bad_request socket_send write_all
  hdl_bad_request_lem w = ground arith

  by_line :
      (text : Bytes) (w : World P) (o : Option (Bytes × Bytes × Bytes))
      → request_line (fit 1024 text) ≡ o
      → Returns (handle_text fuel fd text w) (ByLine text o fd w)
  unfolding handle_text
  by_line text w none e =
      rw (e, Returns) (ap (λ (v : World P). (Rc.fail, v)) (hdl_bad_request_lem w))
  by_line text w (some line) e =
      rw (e, Returns)
        (dispatch-ByRoute (route_of (request_of text line)) text (request_of text line) w)

  by_receipt :
      (r : Receipt) (w : World P)
      → (Fills r → ⊥)
      → Returns (handle_receipt fuel fd r w) (ByReceipt r fd w)
  unfolding handle_receipt
  by_receipt gave_up w h = refl
  by_receipt ended w h = refl
  by_receipt (got bytes) w h = elim (Bool-cases (leb 1024 (length bytes))) [
    | inl full ↦ absurd (h (leb→le 1024 (length bytes) full))
    | inr fits ↦
        rw (fits, Returns)
          (by_line (text_of bytes) w (request_line (fit 1024 (text_of bytes))) refl)
  ]

  -- Where `malloc` succeeds, `SCAN` takes the scan forward and the fuel is enough for it, `hdl_socket`
  -- returns on an open socket, unless the bytes fill its buffer. Three attempts without bytes leave the
  -- world as it was, and so does the end of the stream, with `ZT_RC_FAIL`. A text without a request
  -- line is answered by 400, with `ZT_RC_FAIL`. A request that has a route is answered by exactly one
  -- message, and any other is not answered, both with `ZT_RC_OK`.
  pub hdl_socket-ByReceipt :
      (read : ℕ → Read) (w : World P)
      → (Fills (receive 3 0 read) → ⊥)
      → Returns (hdl_socket fuel fd read w) (ByReceipt (receive 3 0 read) fd w)
  unfolding hdl_socket
  hdl_socket-ByReceipt read w h = rw up (by_receipt (receive 3 0 read) w h)

  Fills-overruns : (r : Receipt) (w : World P) → Fills r → handle_receipt fuel fd r w ≡ overruns
  unfolding handle_receipt
  Fills-overruns gave_up w h = absurd h
  Fills-overruns ended w h = absurd h
  Fills-overruns (got bytes) w h = ground arith

  overruns_if :
      (read : ℕ → Read) (w : World P)
      → Fills (receive 3 0 read)
      → hdl_socket fuel fd read w ≡ overruns
  unfolding hdl_socket
  overruns_if read w h = rw up (Fills-overruns (receive 3 0 read) w h)

  -- Where `malloc` succeeds, `SCAN` takes the scan forward and the fuel is enough for it, `hdl_socket`
  -- on an open socket writes behind its buffer exactly if the first read that brings bytes brings as
  -- many as the buffer holds, 1024.
  pub hdl_socket_overruns :
      (read : ℕ → Read) (w : World P)
      → (hdl_socket fuel fd read w ≡ overruns) ↔ Fills (receive 3 0 read)
  hdl_socket_overruns read w = (
    λ e. elim (Fills-cases (receive 3 0 read)) [
      | inl full ↦ full
      | inr fits ↦ absurd (
          Returns-ne-overruns (hdl_socket fuel fd read w) (ByReceipt (receive 3 0 read) fd w)
            (hdl_socket-ByReceipt read w fits) e)
    ],
    λ full. overruns_if read w full,
  )
