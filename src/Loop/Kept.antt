-- ===== src/Loop/Kept.antt =====
-- Every turn of the event loop of src/SERVER/zt_socket.c keeps what the commands to Redis keep.
use zam_tok.Prelude.{
  ℕ, ℤ, pos, negsuc, is_neg, is_nat, Bool, true, false, Bytes, ◌≡◌, inl, inr, refl, ap, ◌==◌, leb,
  Bool-cases, Option-cases, length,
}
use zam_tok.Outcome.{Ensures, Ensures-and_then, Ensures_any, Ensures-returns}
use zam_tok.CString.{take_until, fit}
use zam_tok.Util.{Req}
use zam_tok.World.{Platform, World}
use zam_tok.Redis.Issued.{Invariant}
use zam_tok.Http.Kept.{
  Still, Still-store, hdl_bad_request-store, http_join-Still, http_login-Still,
  http_create_room-Still, http_search_room-Still, http_join_room-Still, http_invite_room-Still,
  http_list_friends-Still, http_list_rooms-Still,
}
use zam_tok.Http.ListRooms.{http_list_rooms}
use zam_tok.Hdl.Header.{hdl_header}
use zam_tok.Hdl.Request.{
  Read, Receipt, gave_up, ended, got, receive, request_line, request_of, route_of, Route, join,
  login, create, search, join_room, list_rooms, list_friends, invite, other, read_only, dispatch,
  handle_text, handle_receipt, hdl_socket,
}
use zam_tok.Ctx.{ctx_http_insert}
use zam_tok.Loop.{
  Server, Event, arrives, readable, no_input, client_bits, write_bit, is_client, admit, Arrival,
  hdl_accept, drop_client, after_request, handle_event, turn, Reach, here, next,
}

module _ {P : Platform} where
  write_bit-world :
      (fd : ℤ) (b : Bool) (s : Server P) → Ensures (write_bit fd b s) (λ t. t.world ≡ s.world)
  unfolding write_bit
  write_bit-world (negsuc n) b s = tt
  write_bit-world (pos n) b s = elim (Bool-cases (leb client_bits n)) [
    | inl e ↦ rw (e, Ensures) tt
    | inr e ↦ rw (e, Ensures) refl
  ]

  after_request-world :
      (fd : ℤ) (s : Server P) (out : ℤ × World P)
      → Ensures (after_request fd s out) (λ t. t.world ≡ out.1)
  unfolding after_request drop_client
  after_request-world fd s (rc, w) = elim (Bool-cases (is_nat rc 0)) [
    | inl e ↦ rw (e, Ensures) refl
    | inr e ↦ elim (Bool-cases (is_client fd)) [
      | inl e' ↦ rw (e, e', Ensures) (write_bit-world fd false _)
      | inr e' ↦ rw (e, e', Ensures) refl
    ]
  ]

  hdl_accept-world :
      (a : Arrival) (s : Server P) → Ensures (hdl_accept a s) (λ out. out.1.world ≡ s.world)
  unfolding hdl_accept admit
  hdl_accept-world a s = elim (Bool-cases (is_neg a.fd)) [
    | inl e ↦ rw (e, Ensures) refl
    | inr e ↦ elim (Bool-cases (is_neg (ctx_http_insert a.calls s.ctx a.fd a.addr).0)) [
      | inl e' ↦ rw (e, e', Ensures) refl
      | inr e' ↦ elim (Bool-cases a.added) [
        | inl e'' ↦
            rw (e, e', e'', Ensures)
              (Ensures-and_then (write_bit a.fd true _) _ (λ t. t.world ≡ s.world) _
                (write_bit-world a.fd true _) (λ t k. k))
        | inr e'' ↦ rw (e, e', e'', Ensures) refl
      ]
    ]
  ]

module _ {P : Platform} (I : Invariant P) where
  read_only-Still :
      (buf : Bytes) (q : Req) (w : World P)
      → Ensures (read_only buf q w) (λ out. Still I w.store out.1.store)
  unfolding read_only
  read_only-Still buf q w =
      Ensures-and_then (hdl_header buf _ _) _ (λ o. Unit {0})
        (λ (out : ℤ × World P). Still I w.store out.1.store) (Ensures_any _) (λ o k x. x)

  dispatch-Still :
      (fuel : ℕ) (r : Route) (fd : ℤ) (buf : Bytes) (q : Req) (w : World P)
      → Ensures (dispatch fuel r fd buf q w) (λ out. Still I w.store out.1.store)
  unfolding dispatch
  dispatch-Still fuel join fd buf q w = http_join-Still I fd buf q w
  dispatch-Still fuel login fd buf q w = http_login-Still I fd buf q w
  dispatch-Still fuel create fd buf q w = http_create_room-Still I fd buf q w
  dispatch-Still fuel search fd buf q w = http_search_room-Still I fd buf q w
  dispatch-Still fuel join_room fd buf q w = http_join_room-Still I fd buf q w
  dispatch-Still fuel list_rooms fd buf q w =
      Ensures-and_then (http_list_rooms fuel fd buf q w) _ (λ out. Still I w.store out.1.store) _
        (http_list_rooms-Still I fuel fd buf q w) (λ out k. k)
  dispatch-Still fuel list_friends fd buf q w = http_list_friends-Still I fd buf q w
  dispatch-Still fuel invite fd buf q w = http_invite_room-Still I fd buf q w
  dispatch-Still fuel other fd buf q w = read_only-Still buf q w

  handle_text-Still :
      (fuel : ℕ) (fd : ℤ) (buf : Bytes) (w : World P)
      → Ensures (handle_text fuel fd buf w) (λ out. Still I w.store out.1.store)
  unfolding handle_text
  handle_text-Still fuel fd buf w = elim (Option-cases (request_line (fit 1024 buf))) [
    | inl e ↦
        rw (e, Ensures) (Still-store I w.store w.store _ (hdl_bad_request-store fd w) (λ x. x))
    | inr (line, e) ↦
        rw (e, handle_text)
          (dispatch-Still fuel (route_of (request_of buf line)) fd buf (request_of buf line) w)
  ]

  handle_receipt-Still :
      (fuel : ℕ) (fd : ℤ) (r : Receipt) (w : World P)
      → Ensures (handle_receipt fuel fd r w) (λ out. Still I w.store out.1.store)
  unfolding handle_receipt
  handle_receipt-Still fuel fd gave_up w = λ x. x
  handle_receipt-Still fuel fd ended w = λ x. x
  handle_receipt-Still fuel fd (got bytes) w = elim (Bool-cases (leb 1024 (length bytes))) [
    | inl e ↦ rw (e, Ensures) tt
    | inr e ↦ rw e (handle_text-Still fuel fd (take_until (λ c. c == 0) bytes) w)
  ]

  hdl_socket-Still :
      (fuel : ℕ) (fd : ℤ) (read : ℕ → Read) (w : World P)
      → Ensures (hdl_socket fuel fd read w) (λ out. Still I w.store out.1.store)
  unfolding hdl_socket
  hdl_socket-Still fuel fd read w = elim (Bool-cases (is_neg fd)) [
    | inl e ↦ rw (e, Ensures) (λ x. x)
    | inr e ↦ rw e (handle_receipt-Still fuel fd (receive 3 0 read) w)
  ]

  same_world-Still : (s t : World P) → t ≡ s → Still I s.store t.store
  same_world-Still s t e =
      Still-store I s.store s.store t.store (ap (λ (w : World P). w.store) e) (λ x. x)

  handle_event-Still :
      (fuel : ℕ) (e : Event) (s : Server P)
      → Ensures (handle_event fuel e s) (λ out. Still I s.world.store out.1.world.store)
  unfolding handle_event
  handle_event-Still fuel (no_input fd) s = λ x. x
  handle_event-Still fuel (arrives a) s =
      Ensures-and_then (hdl_accept a s) _ (λ out. out.1.world ≡ s.world) _ (hdl_accept-world a s)
        (λ out k. same_world-Still s.world out.1.world k)
  handle_event-Still fuel (readable fd read) s =
      Ensures-and_then (hdl_socket fuel fd read s.world) _
        (λ out. Still I s.world.store out.1.store) _ (hdl_socket-Still fuel fd read s.world)
        (λ out k.
          Ensures-and_then (after_request fd s out) _ (λ t. t.world ≡ out.1) _
            (after_request-world fd s out)
            (λ t k'.
              Still-store I s.world.store out.1.store t.world.store
                (ap (λ (w : World P). w.store) k') k))

  -- Every property of the database that each of the eleven commands of `zt_redis.h` keeps is kept by the
  -- event loop: if it holds where turns begin, it holds wherever they lead.
  pub Reach-Still : (s t : Server P) → Reach s t → Still I s.world.store t.world.store
  Reach-Still s t here x = x
  Reach-Still s t (next {t = u} r (turn fuel e eq)) x =
      Ensures-returns (handle_event fuel e u) (λ out. Still I u.world.store out.1.world.store)
        (handle_event-Still fuel e u) eq (Reach-Still s u r x)
