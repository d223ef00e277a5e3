-- ===== src/Loop/Waiting.antt =====
-- The loop of `socket_event_loop` of src/SERVER/zt_socket.c over what `epoll_wait` reports, and
-- `socket_accept`, which nothing calls.
pub mod Served
use zam_tok.Prelude.{
  ℕ, ◌+◌, zero, suc, ◌-◌, ◌*◌, ◌≤◌, ◌<◌, ℤ, pos, negsuc, is_neg, is_pos, is_nat, Bool, true, false,
  not, ◌&&◌, ◌||◌, List, [], ◌∷◌, ◌++◌, Option, none, some, Bytes, codes, ◌≡◌, ◌≢◌, ◌↔◌, ◌⊎◌, inl,
  inr, refl, sym, ap, ◌∙◌, subst, arith, ◌==◌, ltb, leb, if◌then◌else◌, Bool-cases, Option-cases,
  length, take, drop, get_or, set, append_assoc, append-nil, length-append, All, replicate,
  List-cases,
}
use zam_tok.Codes.Rc
use zam_tok.Outcome.{Outcome, returns, and_then}
use zam_tok.World.{Platform}
use zam_tok.Loop.{Server, Event, arrives, readable, no_input, handle_event}

-- What one call of `epoll_wait` does: it reports events, or fails, with EINTR or otherwise.
pub data Report : Type 0 where
  events : List Event → Report
  interrupted failed : Report

-- `tEvents[i].data.fd`
abbrev pub event_fd : ℤ → Event → ℤ
event_fd socket (arrives a) = socket
event_fd socket (readable fd read) = fd
event_fd socket (no_input fd) = fd

-- The loop waits for the next report, or has left by `goto close_event`.
pub data Stand (P : Platform) : Type 0 where
  waits : ℤ → Server P → Stand P
  leaves : Server P → Stand P

module _ {P : Platform} where
  -- Behind the label: `fd` is the descriptor of the last event that was looked at.
  unfoldable pub close_event : ℤ → Server P → Stand P
  close_event fd s = leaves (if is_neg fd then s else record s { closed = s.closed ++ fd ∷ [] })

  -- The loop over the events of one report; what follows it is an argument.
  unfoldable pub batch :
      ℕ → ℤ → List Event → ℤ → Server P → (ℤ → Server P → Outcome (Stand P)) → Outcome (Stand P)
  unfolding close_event
  batch fuel socket [] fd s next = next fd s
  batch fuel socket (e ∷ rest) fd s next = and_then (handle_event fuel e s) (λ out. elim out.0 [
    | true ↦ batch fuel socket rest (event_fd socket e) out.1 next
    | false ↦ returns (close_event (event_fd socket e) out.1)
  ])

  -- `while(1)`, as far as the reports go.
  unfoldable pub report_loop : ℕ → ℤ → List Report → ℤ → Server P → Outcome (Stand P)
  unfolding close_event batch
  report_loop fuel socket [] fd s = returns (waits fd s)
  report_loop fuel socket (interrupted ∷ more) fd s = report_loop fuel socket more fd s
  report_loop fuel socket (failed ∷ more) fd s = returns (close_event fd s)
  report_loop fuel socket (events es ∷ more) fd s =
      batch fuel socket es fd s (report_loop fuel socket more)

-- What one `accept` returns, and whether `epoll_ctl` then takes the descriptor; `errno` behind it is one
-- that asks to try again, or not.
pub record Offer : Type 0 where
  pub client_fd : ℤ
  pub taken : Bool
  pub again : Bool

-- The loop of `socket_accept`, over the offers: the descriptors that epoll takes, and the code, or
-- `none` where `accept` waits.
unfoldable pub accept_loop : List Offer → List ℤ × Option ℤ
accept_loop [] = ([], none)
accept_loop (o ∷ rest) =
    let more = accept_loop rest in
    if is_pos o.client_fd
    then (if o.taken then (o.client_fd ∷ more.0, more.1) else ([], some Rc.socket))
    else ([], some (if is_neg o.client_fd || not o.again then Rc.socket else Rc.ok))

unfoldable pub socket_accept : ℤ → ℤ → List Offer → List ℤ × Option ℤ
unfolding accept_loop
socket_accept socket epfd offers =
    if is_neg socket || is_neg epfd then ([], some Rc.arg_invalid) else accept_loop offers

-- Whether an `accept` returned the descriptor 0.
abbrev zero_among : List Offer → Bool
zero_among [] = false
zero_among (o ∷ rest) = is_nat o.client_fd 0 || zero_among rest

-- `socket_accept` returns `ZT_RC_OK` only if an `accept` returned the descriptor 0: where it ends as it
-- is meant to, with no more clients, it returns `ZT_RC_SOCKET`.
accept_loop-zero :
    (offers : List Offer) → (accept_loop offers).1 ≡ some Rc.ok → zero_among offers ≡ true
unfolding accept_loop
accept_loop-zero [] h = absurd (cc)
accept_loop-zero (o ∷ rest) h = ground (arith, accept_loop-zero rest)
