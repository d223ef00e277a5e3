-- ===== src/Loop/Requests.antt =====
-- What the event loop of src/SERVER/zt_socket.c does with a client that has input.
use zam_tok.Prelude.{
  ℕ, ◌<◌, ℤ, pos, is_nat, Bool, true, false, [], ◌∷◌, ◌++◌, codes, ◌≡◌, ◌≢◌, ◌⊎◌, inl, inr, refl,
  arith, leb, Bool-cases, set,
}
use zam_tok.Codes.Rc
use zam_tok.Outcome.{Returns, Returns-and_then}
use zam_tok.World.{Platform, World}
use zam_tok.Redis.RoomList.Ends.{ScanEnds}
use zam_tok.Hdl.Request.{Read, Receipt, receive, hdl_socket}
use zam_tok.Hdl.Request.Served.{ByReceipt, Fills, hdl_socket-ByReceipt}
use zam_tok.Loop.{
  without, Server, readable, client_bits, write_bit, is_client, drop_client, after_request,
  handle_event,
}

-- What a code of `hdl_socket` makes of the server: nothing but the world changes if the code is
-- `ZT_RC_OK`, and otherwise the client is closed, its bit is cleared, and epoll watches it no more.
abbrev pub ByCode : {P : Platform} → ℕ → Server P → ℤ × World P → Server P → Type 0
ByCode n s (rc, w) t =
    ((rc ≡ Rc.ok) × (t ≡ record s { world = w }))
    ⊎ ((rc ≢ Rc.ok)
        × (t ≡ record s {
          world = w;
          closed = s.closed ++ pos n ∷ [];
          watched = without (pos n) s.watched;
          client_fds = set s.client_fds n false;
        }))

-- The loop goes on, with the server that what was read leads to.
abbrev pub Settled : {P : Platform} → Receipt → ℕ → Server P → Bool × Server P → Type 0
Settled {P} receipt n s (goes_on, t) =
    (goes_on ≡ true)
    × (out : ℤ × World P) × ByReceipt receipt (pos n) s.world out
    × ByCode n s out t

after_request-ByCode :
    {P : Platform} (n : ℕ) (s : Server P) (out : ℤ × World P)
    → n < client_bits
    → Returns (after_request (pos n) s out) (ByCode n s out)
unfolding after_request drop_client write_bit
after_request-ByCode n s (rc, w) lt = elim (Bool-cases (is_nat rc 0)) [
  | inl e ↦ rw (e, Returns) (inl (ground arith, refl))
  | inr e ↦
      let inside : leb client_bits n ≡ false = ground arith in
      let client : is_client (pos n) ≡ true = ground arith in
      rw (e, inside, client, Returns) (inr (ground arith, refl))
]

module _ {P : Platform} (E : ScanEnds P) (room : P.malloc ≡ true) (fuel : ℕ)
    (enough : E.left (codes "0") < fuel) where
  -- Where `malloc` succeeds, `SCAN` takes the scan forward and the fuel is enough for it, the event loop
  -- goes on behind the request of a client with a descriptor below 96, unless its bytes fill the buffer.
  -- The client is answered as `hdl_socket` does for what was read. If that returns `ZT_RC_OK`, nothing but
  -- the world changes; otherwise the client is closed, its bit in `g_client_fd` is cleared and epoll
  -- watches it no more, but its entry in the list of clients stays.
  pub readable-Settled :
      (n : ℕ) (read : ℕ → Read) (s : Server P)
      → n < client_bits
      → (Fills (receive 3 0 read) → ⊥)
      → Returns (handle_event fuel (readable (pos n) read) s) (Settled (receive 3 0 read) n s)
  unfolding handle_event
  readable-Settled n read s lt fits =
      Returns-and_then (hdl_socket fuel (pos n) read s.world) _
        (ByReceipt (receive 3 0 read) (pos n) s.world) _
        (hdl_socket-ByReceipt E room fuel enough (pos n) refl read s.world fits)
        (λ out h.
          Returns-and_then (after_request (pos n) s out) _ (ByCode n s out) _
            (after_request-ByCode n s out lt) (λ t k. (refl, out, h, k)))
