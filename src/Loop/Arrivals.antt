-- ===== src/Loop/Arrivals.antt =====
-- What `hdl_accept` of src/SERVER/zt_hdl.c does with a new client, and what becomes of the list of clients.
use zam_tok.Prelude.{
  ℕ, ◌≤◌, ◌<◌, ℤ, pos, negsuc, is_neg, is_nat, Bool, true, false, List, [], ◌∷◌, ◌++◌, Bytes, ◌≡◌,
  ◌↔◌, inl, inr, refl, sym, ap, ◌∙◌, subst, arith, leb, Bool-cases, set, append_assoc, append-nil,
}
use zam_tok.Codes.Rc
use zam_tok.Outcome.{returns, overruns, Ensures, Ensures-and_then, Ensures_any, Ensures-returns}
use zam_tok.World.{Platform, World}
use zam_tok.Ctx.{ServerCtx, HttpConnCtx, Calls, ctx_http_insert}
use zam_tok.Ctx.Counted.{ctx_http_insert_lem}
use zam_tok.Hdl.Request.{hdl_socket}
use zam_tok.Loop.{
  Server, Event, arrives, readable, no_input, client_bits, Arrival, write_bit, is_client, admit,
  hdl_accept, drop_client, after_request, handle_event, turn, Reach, here, next,
}

-- No code that an insertion returns is negative.
pub ctx_http_insert-nonneg :
    (calls : Calls) (c : ServerCtx) (fd : ℤ) (addr : Bytes)
    → is_neg (ctx_http_insert calls c fd addr).0 ≡ false
unfolding ctx_http_insert
ctx_http_insert-nonneg calls c fd addr = ground arith

module _ {P : Platform} where
  -- A client whose descriptor is below 96, and which epoll takes, is admitted, and its bit is set,
  -- whether or not it was inserted into the list of clients.
  pub hdl_accept-admits :
      (a : Arrival) (s : Server P) (n : ℕ)
      → a.fd ≡ pos n
      → a.added ≡ true
      → n < client_bits
      → hdl_accept a s
        ≡ returns (
          Rc.ok,
          record s {
            ctx = (ctx_http_insert a.calls s.ctx (pos n) a.addr).1;
            watched = pos n ∷ s.watched;
            client_fds = set s.client_fds n true;
          },
        )
  unfolding hdl_accept admit write_bit
  hdl_accept-admits a s n is added lt =
      ground (arith, ctx_http_insert-nonneg a.calls s.ctx a.fd a.addr)

  -- `hdl_accept` writes behind `g_client_fd` exactly if epoll takes the client and its descriptor is
  -- 96 or more.
  pub hdl_accept_overruns :
      (a : Arrival) (s : Server P) (n : ℕ)
      → a.fd ≡ pos n
      → (hdl_accept a s ≡ overruns) ↔ ((a.added ≡ true) × (client_bits ≤ n))
  unfolding hdl_accept admit write_bit
  hdl_accept_overruns a s n is = ground (arith, ctx_http_insert-nonneg a.calls s.ctx a.fd a.addr)

-- The clients of the second list are those of the first, and others behind them.
abbrev pub Grows : ServerCtx → ServerCtx → Type 0
Grows c c' = (more : List HttpConnCtx) × (c'.http_conn_head ≡ c.http_conn_head ++ more)

Grows-self : (c : ServerCtx) → Grows c c
Grows-self c = ([], sym (append-nil c.http_conn_head))

Grows-trans : (a b c : ServerCtx) → Grows a b → Grows b c → Grows a c
Grows-trans a b c (m, e) (m', e') =
    (m ++ m', e' ∙ ap (λ l. l ++ m') e ∙ append_assoc a.http_conn_head m m')

ctx_http_insert-Grows :
    (calls : Calls) (c : ServerCtx) (fd : ℤ) (addr : Bytes)
    → Grows c (ctx_http_insert calls c fd addr).1
ctx_http_insert-Grows calls c fd addr = elim (ctx_http_insert_lem calls c fd addr) [
  | inl (e, rc) ↦ subst (Grows c) (sym e) (Grows-self c)
  | inr (room, up, e) ↦ (_, e)
]

module _ {P : Platform} where
  write_bit-ctx :
      (fd : ℤ) (b : Bool) (s : Server P) → Ensures (write_bit fd b s) (λ t. t.ctx ≡ s.ctx)
  unfolding write_bit
  write_bit-ctx (negsuc n) b s = tt
  write_bit-ctx (pos n) b s = elim (Bool-cases (leb client_bits n)) [
    | inl e ↦ rw (e, Ensures) tt
    | inr e ↦ rw (e, Ensures) refl
  ]

  hdl_accept-Grows :
      (a : Arrival) (s : Server P) → Ensures (hdl_accept a s) (λ out. Grows s.ctx out.1.ctx)
  unfolding hdl_accept admit
  hdl_accept-Grows a s =
      let grown = ctx_http_insert-Grows a.calls s.ctx a.fd a.addr in
      elim (Bool-cases (is_neg a.fd)) [
        | inl e ↦ rw (e, Ensures) (Grows-self s.ctx)
        | inr e ↦ elim (Bool-cases a.added) [
          | inl e' ↦
              rw (e, e', ctx_http_insert-nonneg a.calls s.ctx a.fd a.addr, Ensures)
                (Ensures-and_then (write_bit a.fd true _) _ _ _ (write_bit-ctx a.fd true _)
                  (λ t k. subst (Grows s.ctx) (sym k) grown))
          | inr e' ↦ rw (e, e', ctx_http_insert-nonneg a.calls s.ctx a.fd a.addr, Ensures) grown
        ]
      ]

  after_request-ctx :
      (fd : ℤ) (s : Server P) (out : ℤ × World P)
      → Ensures (after_request fd s out) (λ t. t.ctx ≡ s.ctx)
  unfolding after_request drop_client
  after_request-ctx fd s (rc, w) = elim (Bool-cases (is_nat rc 0)) [
    | inl e ↦ rw (e, Ensures) refl
    | inr e ↦ elim (Bool-cases (is_client fd)) [
      | inl e' ↦ rw (e, e', Ensures) (write_bit-ctx fd false _)
      | inr e' ↦ rw (e, e', Ensures) refl
    ]
  ]

  handle_event-Grows :
      (fuel : ℕ) (e : Event) (s : Server P)
      → Ensures (handle_event fuel e s) (λ out. Grows s.ctx out.1.ctx)
  unfolding handle_event
  handle_event-Grows fuel (no_input fd) s = Grows-self s.ctx
  handle_event-Grows fuel (arrives a) s =
      Ensures-and_then (hdl_accept a s) _ (λ out. Grows s.ctx out.1.ctx) _ (hdl_accept-Grows a s)
        (λ out k. k)
  handle_event-Grows fuel (readable fd read) s =
      Ensures-and_then (hdl_socket fuel fd read s.world) _ (λ out. Unit {0}) _ (Ensures_any _)
        (λ out k.
          Ensures-and_then (after_request fd s out) _ (λ t. t.ctx ≡ s.ctx) _
            (after_request-ctx fd s out) (λ t k'. subst (Grows s.ctx) (sym k') (Grows-self s.ctx)))

  -- No turn of the event loop takes a client out of the list of clients: where turns lead from one
  -- server to another, the list of the first is the start of the list of the second.
  pub Reach-Grows : (s t : Server P) → Reach s t → Grows s.ctx t.ctx
  Reach-Grows s t here = Grows-self s.ctx
  Reach-Grows s t (next {t = u} r (turn fuel e eq)) =
      Grows-trans s.ctx u.ctx t.ctx (Reach-Grows s u r) (
        Ensures-returns (handle_event fuel e u) (λ out. Grows u.ctx out.1.ctx)
          (handle_event-Grows fuel e u) eq)
