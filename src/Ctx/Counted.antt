-- ===== src/Ctx/Counted.antt =====
-- The count of the clients is the length of their list, and has its bound.
use zam_tok.Prelude.{
  ◌≤◌, ◌<◌, ℤ, is_neg, Bool, false, List, [], ◌∷◌, ◌++◌, Bytes, ◌≡◌, ◌≢◌, ◌⊎◌, refl, ap, arith,
  length, length-append,
}
use zam_tok.Codes.Rc
use zam_tok.Ctx.{
  HttpConnCtx, ServerCtx, max_clients, ctx_init, ctx_http_free, Calls, link_last, new_conn,
  ctx_http_insert,
}

pub record IsCounted (c : ServerCtx) : Type 0 where
  pub counted : c.client_count ≡ length c.http_conn_head
  pub bounded : c.client_count ≤ max_clients

link_last-append : (l : List HttpConnCtx) (n : HttpConnCtx) → link_last l n ≡ l ++ n ∷ []
unfolding link_last
link_last-append [] n = refl
link_last-append (m ∷ l) n = ap (◌∷◌ m) (link_last-append l n)

-- Whatever the calls return, each operation on the list of clients leaves the count of the clients equal
-- to the length of the list, and at most 100.
pub ctx-IsCounted :
    (c : ServerCtx) (mutex_init : Bool) (calls : Calls) (fd : ℤ) (addr : Bytes)
    → IsCounted c
    → IsCounted (ctx_init mutex_init c).1
      × IsCounted (ctx_http_free c).1
      × IsCounted (ctx_http_insert calls c fd addr).1
unfolding ctx_init ctx_http_free ctx_http_insert
ctx-IsCounted c mutex_init calls fd addr h = (
  record { counted = refl; bounded = omega arith },
  record { counted = refl; bounded = omega arith },
  ground (
    arith,
    link_last-append c.http_conn_head (new_conn fd addr),
    length-append c.http_conn_head (new_conn fd addr ∷ []),
  ),
)

-- The list is what it was, and the code an error, or there was room, and the client is behind it.
abbrev pub Inserted : ServerCtx → ℤ → Bytes → ℤ × ServerCtx → Type 0
Inserted c fd addr (rc, c') =
    ((c' ≡ c) × (rc ≢ Rc.ok))
    ⊎ ((c.client_count < max_clients)
        × (is_neg fd ≡ false)
        × (c'.http_conn_head ≡ c.http_conn_head ++ new_conn fd addr ∷ []))

-- Inserting a client puts it behind all others, which happens only below 100 clients and for a
-- descriptor, or it changes nothing and does not return `ZT_RC_OK`.
pub ctx_http_insert_lem :
    (calls : Calls) (c : ServerCtx) (fd : ℤ) (addr : Bytes)
    → Inserted c fd addr (ctx_http_insert calls c fd addr)
unfolding ctx_http_insert
ctx_http_insert_lem calls c fd addr =
    ground (arith, link_last-append c.http_conn_head (new_conn fd addr))
