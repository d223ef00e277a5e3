-- ===== src/Loop/Waiting/Served.antt =====
-- The loop of `socket_event_loop` of src/SERVER/zt_socket.c goes from turn to turn.
use zam_tok.Prelude.{
  ℕ, ◌<◌, ℤ, pos, negsuc, is_neg, Bool, true, false, List, [], ◌∷◌, ◌++◌, codes, ◌≡◌, ◌⊎◌, inl, inr,
  refl, sym, subst, ap, ◌∙◌, arith, leb, Bool-cases, All,
}
use zam_tok.Codes.Rc
use zam_tok.Outcome.{
  Outcome, returns, out_of_fuel, overruns, Returns, Returns-and_then, Returns-weaken,
}
use zam_tok.World.{Platform}
use zam_tok.Redis.RoomList.Ends.{ScanEnds}
use zam_tok.Hdl.Request.{receive}
use zam_tok.Hdl.Request.Served.{Fills}
use zam_tok.Ctx.{ctx_http_insert}
use zam_tok.Loop.Requests.{readable-Settled}
use zam_tok.Loop.Arrivals.{ctx_http_insert-nonneg}
use zam_tok.Loop.{
  Server, Event, Arrival, arrives, readable, no_input, client_bits, write_bit, admit, hdl_accept,
  handle_event,
}
use zam_tok.Loop.Waiting.{
  Report, events, interrupted, failed, event_fd, Stand, waits, leaves, close_event, batch,
  report_loop,
}

-- An event within the bounds of the server's arrays: the descriptor has a bit in `g_client_fd`, and the
-- bytes that are read do not fill the buffer.
abbrev pub IsWithin : Event → Type 0
IsWithin (arrives a) = (is_neg a.fd ≡ true) ⊎ ((n : ℕ) × (a.fd ≡ pos n) × (n < client_bits))
IsWithin (readable fd read) =
    (n : ℕ) × (fd ≡ pos n) × (n < client_bits) × (Fills (receive 3 0 read) → ⊥)
IsWithin (no_input fd) = Unit

abbrev pub AreWithin : Report → Type 0
AreWithin (events es) = All IsWithin es
AreWithin interrupted = Unit
AreWithin failed = Unit

-- One of the calls of `epoll_wait` fails.
abbrev pub fails : List Report → Bool
fails [] = false
fails (failed ∷ more) = true
fails (interrupted ∷ more) = fails more
fails (events es ∷ more) = fails more

-- The events that are looked at: those of all reports before a call that fails.
abbrev pub events_before : List Report → List Event
events_before [] = []
events_before (failed ∷ more) = []
events_before (interrupted ∷ more) = events_before more
events_before (events es ∷ more) = es ++ events_before more

-- The descriptor of the last event, or what `fd` was before.
abbrev pub last_fd : ℤ → ℤ → List Event → ℤ
last_fd socket fd [] = fd
last_fd socket fd (e ∷ es) = last_fd socket (event_fd socket e) es

-- All the events, one after the other, are handled, and the loop goes on behind each.
abbrev pub AllHandled : {P : Platform} → ℕ → List Event → Server P → Server P → Type 0
AllHandled fuel [] s t = s ≡ t
AllHandled {P} fuel (e ∷ es) s t =
    (u : Server P) × (handle_event fuel e s ≡ returns (true, u)) × AllHandled fuel es u t

-- Where the loop stands with a server and a descriptor: if a call failed, it has closed the descriptor,
-- unless it is negative, and has left.
abbrev pub stand_at : {P : Platform} → Bool → ℤ → Server P → Stand P
stand_at false fd t = waits fd t
stand_at true (pos n) t = leaves (record t { closed = t.closed ++ pos n ∷ [] })
stand_at true (negsuc n) t = leaves t

-- Where reports lead.
abbrev pub Stands : {P : Platform} → ℕ → ℤ → ℤ → List Report → Server P → Stand P → Type 0
Stands {P} fuel socket fd reports s out =
    (t : Server P) × AllHandled fuel (events_before reports) s t
    × (out ≡ stand_at (fails reports) (last_fd socket fd (events_before reports)) t)

AllHandled-append :
    {P : Platform} (fuel : ℕ) (es es' : List Event) (s t u : Server P)
    → AllHandled fuel es s t
    → AllHandled fuel es' t u
    → AllHandled fuel (es ++ es') s u
AllHandled-append fuel [] es' s t u h k = subst (λ v. AllHandled fuel es' v u) (sym h) k
AllHandled-append fuel (e ∷ es) es' s t u (v, is, h) k =
    (v, is, AllHandled-append fuel es es' v t u h k)

last_fd-append :
    (socket fd : ℤ) (es es' : List Event)
    → last_fd socket fd (es ++ es') ≡ last_fd socket (last_fd socket fd es) es'
last_fd-append socket fd [] es' = refl
last_fd-append socket fd (e ∷ es) es' = last_fd-append socket (event_fd socket e) es es'

Returns-value :
    {A : Type 0} (o : Outcome A) (Q : A → Type 0) → Returns o Q → (a : A) × (o ≡ returns a) × Q a
Returns-value (returns a) Q h = (a, refl, h)
Returns-value out_of_fuel Q h = absurd h
Returns-value overruns Q h = absurd h

module _ {P : Platform} where
  admit-Returns :
      (n : ℕ) (s : Server P) → n < client_bits → Returns (admit (pos n) s) (λ out. out.0 ≡ Rc.ok)
  unfolding admit write_bit
  admit-Returns n s lt =
      let inside : leb client_bits n ≡ false = ground arith in rw (inside, Returns) refl

  hdl_accept-Returns :
      (a : Arrival) (s : Server P)
      → IsWithin (arrives a)
      → Returns (hdl_accept a s) (λ out. is_neg out.0 ≡ false)
  unfolding hdl_accept
  hdl_accept-Returns a s (inl none_there) = rw (none_there, Returns) refl
  hdl_accept-Returns a s (inr (n, is, lt)) =
      let up : is_neg a.fd ≡ false = rw is refl in
      elim (Bool-cases a.added) [
        | inr e ↦ rw (up, ctx_http_insert-nonneg a.calls s.ctx a.fd a.addr, e, Returns) refl
        | inl e ↦
            rw (up, ctx_http_insert-nonneg a.calls s.ctx a.fd a.addr, e, is)
              (Returns-weaken
                (admit (pos n)
                  (record s { ctx = (ctx_http_insert a.calls s.ctx (pos n) a.addr).1 }))
                (λ out. out.0 ≡ Rc.ok) (λ out. is_neg out.0 ≡ false) (admit-Returns n _ lt)
                (λ out k. rw k refl))
      ]

module _ {P : Platform} (E : ScanEnds P) (room : P.malloc ≡ true) (fuel : ℕ)
    (enough : E.left (codes "0") < fuel) where
  handle_event-goes_on :
      (e : Event) (s : Server P)
      → IsWithin e
      → Returns (handle_event fuel e s) (λ out. out.0 ≡ true)
  unfolding handle_event
  handle_event-goes_on (no_input fd) s h = refl
  handle_event-goes_on (arrives a) s h =
      Returns-and_then (hdl_accept a s) _ (λ out. is_neg out.0 ≡ false) _ (hdl_accept-Returns a s h)
        (λ out k. rw k refl)
  handle_event-goes_on (readable fd read) s (n, is, lt, fits) = rw is (
      Returns-weaken (handle_event fuel (readable (pos n) read) s) _ _
        (readable-Settled E room fuel enough n read s lt fits) (λ out k. k.0))

  turns :
      (e : Event) (s : Server P)
      → IsWithin e
      → (t : Server P) × (handle_event fuel e s ≡ returns (true, t))
  turns e s h =
      let (out, is, on) = Returns-value (handle_event fuel e s) _ (handle_event-goes_on e s h) in
      (out.1, is ∙ ap (λ b. returns (b, out.1)) on)

  batch-Returns :
      (socket : ℤ) (es : List Event) (fd : ℤ) (s : Server P)
      (next_report : ℤ → Server P → Outcome (Stand P)) (Q : Stand P → Type 0)
      → All IsWithin es
      → ((u : Server P) → AllHandled fuel es s u → Returns (next_report (last_fd socket fd es) u) Q)
      → Returns (batch fuel socket es fd s next_report) Q
  unfolding batch
  batch-Returns socket [] fd s next_report Q h k = k s refl
  batch-Returns socket (e ∷ es) fd s next_report Q (h, hs) k =
      let (u, is) = turns e s h in
      rw is (
        batch-Returns socket es (event_fd socket e) u next_report Q hs
          (λ v handled. k v (u, is, handled)))

  report_loop-Stands :
      (socket : ℤ) (reports : List Report) (fd : ℤ) (s : Server P)
      → All AreWithin reports
      → Returns (report_loop fuel socket reports fd s) (Stands fuel socket fd reports s)
  unfolding report_loop close_event
  report_loop-Stands socket [] fd s h = (s, refl, refl)
  report_loop-Stands socket (interrupted ∷ more) fd s (h, hs) =
      report_loop-Stands socket more fd s hs
  report_loop-Stands socket (failed ∷ more) (pos n) s (h, hs) = (s, refl, refl)
  report_loop-Stands socket (failed ∷ more) (negsuc n) s (h, hs) = (s, refl, refl)
  report_loop-Stands socket (events es ∷ more) fd s (h, hs) =
      batch-Returns socket es fd s (report_loop fuel socket more) _ h (λ u handled.
        Returns-weaken (report_loop fuel socket more (last_fd socket fd es) u) _
          (Stands fuel socket fd (events es ∷ more) s)
          (report_loop-Stands socket more (last_fd socket fd es) u hs)
          (λ out (t, more_handled, is). (
            t,
            AllHandled-append fuel es (events_before more) s u t handled more_handled,
            rw (last_fd-append socket fd es (events_before more)) is,
          )))

  -- Where `malloc` succeeds, `SCAN` takes the scan forward and the fuel is enough for it, the loop of
  -- `socket_event_loop` deals with every sequence of reports of `epoll_wait` whose events are within the
  -- bounds of the server's arrays: each event of the reports before a call that fails is handled, in their
  -- order and each on the server that the last one leaves, whatever the clients send. Behind them the loop
  -- waits if no call failed, and otherwise it leaves, with the descriptor of the last event closed, or
  -- nothing closed if there was no event or that descriptor is negative.
  pub report_loop-goes_on :
      (socket : ℤ) (reports : List Report) (s : Server P)
      → All AreWithin reports
      → Returns
          (report_loop fuel socket reports (negsuc 0) s)
          (Stands fuel socket (negsuc 0) reports s)
  report_loop-goes_on socket reports s h = report_loop-Stands socket reports (negsuc 0) s h
