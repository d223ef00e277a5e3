-- ===== src/Loop.antt =====
-- The server's event loop: `hdl_accept` of src/SERVER/zt_hdl.c, and the body of the loop of
-- `socket_event_loop` of src/SERVER/zt_socket.c.
pub mod Tables
pub mod Sound
pub mod Requests
pub mod Arrivals
pub mod Kept
pub mod Waiting
use zam_tok.Prelude.{
  ℕ, ◌+◌, zero, suc, ◌-◌, ◌*◌, ◌≤◌, ◌<◌, ℤ, pos, negsuc, is_neg, is_pos, is_nat, Bool, true, false,
  not, ◌&&◌, ◌||◌, List, [], ◌∷◌, ◌++◌, Option, none, some, Bytes, codes, ◌≡◌, ◌≢◌, ◌↔◌, ◌⊎◌, inl,
  inr, refl, sym, ap, ◌∙◌, subst, arith, ◌==◌, ltb, leb, if◌then◌else◌, Bool-cases, Option-cases,
  length, take, drop, get_or, set, append_assoc, append-nil, length-append, All,
}
use zam_tok.Codes.Rc
use zam_tok.Outcome.{Outcome, returns, overruns, and_then}
use zam_tok.World.{Platform, World}
use zam_tok.Ctx.{ServerCtx, max_clients, Calls, ctx_http_insert}
use zam_tok.Hdl.Request.{Read, hdl_socket}

-- `a == b`
abbrev pub fd_eq : ℤ → ℤ → Bool
fd_eq (pos a) (pos b) = a == b
fd_eq (negsuc a) (negsuc b) = a == b
fd_eq _ _ = false

-- The descriptors without one, and whether one is among them.
unfoldable pub without : ℤ → List ℤ → List ℤ
without fd [] = []
without fd (x ∷ xs) = let rest = without fd xs in if fd_eq x fd then rest else x ∷ rest

unfoldable pub is_among : ℤ → List ℤ → Bool
is_among fd [] = false
is_among fd (x ∷ xs) = fd_eq x fd || is_among fd xs

-- The server: `g_server_ctx`; `g_client_fd`, of 12 bytes, bit b of byte k being the entry 8 * k + b; the
-- descriptors that epoll watches, the listening socket
-- among them; and the descriptors that were closed, the first one first.
pub record Server (P : Platform) : Type 0 where
  pub world : World P
  pub ctx : ServerCtx
  pub client_fds : List Bool
  pub watched : List ℤ
  pub closed : List ℤ

-- The size of `g_client_fd` in bits: `MAX_CLIENTS / 8` is 12.
abbrev pub client_bits : ℕ
client_bits = 96

-- What `accept` returns, the bytes of the address, what the calls for a new client return, and whether
-- `epoll_ctl` succeeds.
pub record Arrival : Type 0 where
  pub fd : ℤ
  pub addr : Bytes
  pub calls : Calls
  pub added : Bool

-- An event of epoll: on the listening socket, or on another descriptor with or without input.
pub data Event : Type 0 where
  arrives : Arrival → Event
  readable : ℤ → (ℕ → Read) → Event
  no_input : ℤ → Event

-- `g_client_fd[fd / 8] |= 1 << fd % 8` and `&= ~(1 << fd % 8)`; a descriptor is not negative here.
unfoldable pub write_bit : {P : Platform} → ℤ → Bool → Server P → Outcome (Server P)
write_bit (pos n) b s =
    if leb client_bits n then overruns else returns (record s { client_fds = set s.client_fds n b })
write_bit (negsuc n) b s = overruns

-- `0 <= fd && fd < MAX_CLIENTS`
abbrev pub is_client : ℤ → Bool
is_client (pos n) = ltb n max_clients
is_client (negsuc n) = false

module _ {P : Platform} where
  -- Behind `epoll_ctl`.
  unfoldable pub admit : ℤ → Server P → Outcome (ℤ × Server P)
  admit fd s =
      and_then (write_bit fd true (record s { watched = fd ∷ s.watched }))
        (λ s'. returns (Rc.ok, s'))

  unfoldable pub hdl_accept : Arrival → Server P → Outcome (ℤ × Server P)
  hdl_accept a s =
      let inserted = ctx_http_insert a.calls s.ctx a.fd a.addr in
      if is_neg a.fd
      then returns (Rc.socket, s)
      else if is_neg inserted.0
      then returns (Rc.ctx, record s { ctx = inserted.1; closed = s.closed ++ a.fd ∷ [] })
      else if not a.added
      then returns (Rc.ctx, record s { ctx = inserted.1; closed = s.closed ++ a.fd ∷ [] })
      else admit a.fd (record s { ctx = inserted.1 })

  -- A client whose request was not handled is taken out of epoll and closed.
  unfoldable pub drop_client : ℤ → Server P → Outcome (Server P)
  unfolding without
  drop_client fd s =
      let closed = record s { watched = without fd s.watched; closed = s.closed ++ fd ∷ [] } in
      if is_client fd then write_bit fd false closed else returns closed

  -- What follows `hdl_socket`.
  unfoldable pub after_request : ℤ → Server P → ℤ × World P → Outcome (Server P)
  after_request fd s (rc, w) =
      if is_nat rc 0
      then returns (record s { world = w })
      else drop_client fd (record s { world = w })

  -- One event: whether the loop goes on, and the server.
  unfoldable pub handle_event : ℕ → Event → Server P → Outcome (Bool × Server P)
  handle_event fuel (arrives a) s =
      and_then (hdl_accept a s) (λ out. returns (not (is_neg out.0), out.1))
  handle_event fuel (readable fd read) s =
      and_then (hdl_socket fuel fd read s.world)
        (λ out. and_then (after_request fd s out) (λ s'. returns (true, s')))
  handle_event fuel (no_input fd) s = returns (true, s)

-- One turn of the loop that goes on.
pub data Turn {P : Platform} (s t : Server P) : Type 0 where
  turn : (fuel : ℕ) (e : Event) → handle_event fuel e s ≡ returns (true, t) → Turn s t

-- The servers that turns lead to.
pub data Reach {P : Platform} (s : Server P) : Server P → Type 0 where
  here : Reach s s
  next : {t u : Server P} → Reach s t → Turn t u → Reach s u
