-- ===== src/Loop/Sound.antt =====
-- What every turn of the event loop of src/SERVER/zt_socket.c keeps, and what becomes of an event.
use zam_tok.Prelude.{
  ℕ, ℤ, pos, negsuc, is_neg, is_nat, true, inl, inr, refl, arith, leb, Bool-cases,
}
use zam_tok.Outcome.{Ensures, Ensures-and_then, Ensures_any, Ensures-returns}
use zam_tok.World.{Platform, World}
use zam_tok.Ctx.{ctx_http_insert}
use zam_tok.Ctx.Counted.{IsCounted, ctx-IsCounted}
use zam_tok.Hdl.Request.{hdl_socket}
use zam_tok.Loop.{
  Server, Event, arrives, readable, no_input, client_bits, Arrival, write_bit, is_client, admit,
  hdl_accept, drop_client, after_request, handle_event, turn, Reach, here, next,
}
use zam_tok.Loop.Tables.{Mirrors, watch-Mirrors, unwatch-Mirrors, outside-Mirrors}

-- The clients are counted, and the bits are those of the watched descriptors, but for the listening socket.
pub record IsSound {P : Platform} (socket : ℤ) (s : Server P) : Type 0 where
  pub clients : IsCounted s.ctx
  pub mirrors : Mirrors socket s.client_fds s.watched

module _ {P : Platform} (socket : ℤ) where
  admit-IsSound :
      (fd : ℤ) (s : Server P)
      → IsSound socket s
      → Ensures (admit fd s) (λ out. IsSound socket out.1)
  unfolding admit write_bit
  admit-IsSound (negsuc n) s h = tt
  admit-IsSound (pos n) s h = elim (Bool-cases (leb client_bits n)) [
    | inl e ↦ rw (e, Ensures) tt
    | inr e ↦
        rw (e, Ensures)
          (record {
            clients = h.clients;
            mirrors = watch-Mirrors socket s.client_fds s.watched n (ground arith) h.mirrors;
          })
  ]

  hdl_accept-IsSound :
      (a : Arrival) (s : Server P)
      → IsSound socket s
      → Ensures (hdl_accept a s) (λ out. IsSound socket out.1)
  unfolding hdl_accept
  hdl_accept-IsSound a s h =
      let c : IsCounted (ctx_http_insert a.calls s.ctx a.fd a.addr).1 =
        (ctx-IsCounted s.ctx true a.calls a.fd a.addr h.clients).2 in
      elim (Bool-cases (is_neg a.fd)) [
        | inl e ↦ rw (e, Ensures) h
        | inr e ↦ elim (Bool-cases (is_neg (ctx_http_insert a.calls s.ctx a.fd a.addr).0)) [
          | inl e' ↦ rw (e, e', Ensures) (record { clients = c; mirrors = h.mirrors })
          | inr e' ↦ elim (Bool-cases a.added) [
            | inl e'' ↦
                rw (e, e', e'', Ensures)
                  (admit-IsSound a.fd
                    (record s { ctx = (ctx_http_insert a.calls s.ctx a.fd a.addr).1 })
                    (record { clients = c; mirrors = h.mirrors }))
            | inr e'' ↦ rw (e, e', e'', Ensures) (record { clients = c; mirrors = h.mirrors })
          ]
        ]
      ]

  drop_client-IsSound :
      (fd : ℤ) (s : Server P) → IsSound socket s → Ensures (drop_client fd s) (IsSound socket)
  unfolding drop_client write_bit
  drop_client-IsSound (negsuc n) s h = record {
    clients = h.clients;
    mirrors = outside-Mirrors socket s.client_fds s.watched (negsuc n) refl h.mirrors;
  }
  drop_client-IsSound (pos n) s h = elim (Bool-cases (is_client (pos n))) [
    | inr e ↦
        rw (e, Ensures)
          (record {
            clients = h.clients;
            mirrors = outside-Mirrors socket s.client_fds s.watched (pos n) e h.mirrors;
          })
    | inl e ↦ elim (Bool-cases (leb client_bits n)) [
      | inl e' ↦ rw (e, e', Ensures) tt
      | inr e' ↦
          rw (e, e', Ensures)
            (record {
              clients = h.clients;
              mirrors = unwatch-Mirrors socket s.client_fds s.watched n (ground arith) h.mirrors;
            })
    ]
  ]

  after_request-IsSound :
      (fd : ℤ) (s : Server P) (out : ℤ × World P)
      → IsSound socket s
      → Ensures (after_request fd s out) (IsSound socket)
  unfolding after_request
  after_request-IsSound fd s (rc, w) h =
      let sound : IsSound socket (record s { world = w }) = record {
        clients = h.clients;
        mirrors = h.mirrors;
      } in
      elim (Bool-cases (is_nat rc 0)) [
        | inl e ↦ rw (e, Ensures) sound
        | inr e ↦ rw (e, Ensures) (drop_client-IsSound fd (record s { world = w }) sound)
      ]

  handle_event-IsSound :
      (fuel : ℕ) (e : Event) (s : Server P)
      → IsSound socket s
      → Ensures (handle_event fuel e s) (λ out. IsSound socket out.1)
  unfolding handle_event
  handle_event-IsSound fuel (no_input fd) s h = h
  handle_event-IsSound fuel (arrives a) s h =
      Ensures-and_then (hdl_accept a s) _ (λ out. IsSound socket out.1) _ (hdl_accept-IsSound a s h)
        (λ out k. k)
  handle_event-IsSound fuel (readable fd read) s h =
      Ensures-and_then (hdl_socket fuel fd read s.world) _ (λ out. Unit {0}) _ (Ensures_any _)
        (λ out k.
          Ensures-and_then (after_request fd s out) _ (IsSound socket) _
            (after_request-IsSound fd s out h) (λ s' k'. k'))

  -- In every state that turns of the event loop lead to from a sound one, the number of clients is the
  -- length of their list and at most 100, and the bit of any descriptor but the listening socket in
  -- `g_client_fd` is set exactly if epoll watches the descriptor.
  pub Reach-IsSound : (s t : Server P) → Reach s t → IsSound socket s → IsSound socket t
  Reach-IsSound s t here h = h
  Reach-IsSound s t (next {t = u} r (turn fuel e eq)) h =
      Ensures-returns (handle_event fuel e u) (λ out. IsSound socket out.1)
        (handle_event-IsSound fuel e u (Reach-IsSound s u r h)) eq
