-- ===== src/Ctx.antt =====
-- src/SERVER/zt_ctx.c: the list of connected clients. What `calloc` and the calls on the mutex return
-- are arguments; a linked list is the list of its nodes.
pub mod Counted
use zam_tok.Prelude.{
  ℕ, ◌+◌, zero, suc, ◌-◌, ◌*◌, ◌≤◌, ◌<◌, ℤ, pos, negsuc, is_neg, is_pos, is_nat, Bool, true, false,
  not, ◌&&◌, ◌||◌, List, [], ◌∷◌, ◌++◌, Option, none, some, Bytes, codes, ◌≡◌, ◌≢◌, ◌↔◌, ◌⊎◌, inl,
  inr, refl, sym, ap, ◌∙◌, subst, arith, ◌==◌, ltb, leb, if◌then◌else◌, Bool-cases, Option-cases,
  length, take, drop, get_or, set, append_assoc, append-nil, length-append, All, replicate,
}
use zam_tok.Codes.Rc
use zam_tok.Codes.Size
use zam_tok.Util.{no_header, Req, Res, zero_response}

-- `socket_addr_t`; the address is the bytes of a `struct sockaddr_in`.
pub record SocketAddr : Type 0 where
  pub family : ℕ
  pub socklen : ℕ
  pub addr : Bytes

-- `http_conn_ctx_t` without its `next`
pub record HttpConnCtx : Type 0 where
  pub client_fd : ℤ
  pub client_addr : SocketAddr
  pub req : Req
  pub res : Res

-- `zt_server_ctx_t` without its mutex
pub record ServerCtx : Type 0 where
  pub http_conn_head : List HttpConnCtx
  pub client_count : ℕ

abbrev pub max_clients : ℕ
max_clients = 100

abbrev pub zero_request : Req
zero_request = record {
  str_method = [];
  str_uri = [];
  str_version = [];
  t_content_headers = replicate Size.header_count no_header;
  i_content_header_count = 0;
  str_body = [];
}

abbrev pub zero_ctx : ServerCtx
zero_ctx = record { http_conn_head = []; client_count = 0 }

-- `mutex_init` is whether `pthread_mutex_init` succeeds.
unfoldable pub ctx_init : Bool → ServerCtx → ℤ × ServerCtx
ctx_init mutex_init ctx = ((if mutex_init then Rc.ok else Rc.ctx), zero_ctx)

-- The loop frees every node.
unfoldable pub ctx_http_free : ServerCtx → ℤ × ServerCtx
ctx_http_free ctx = (Rc.ok, record ctx { http_conn_head = []; client_count = 0 })

-- Whether `calloc`, `pthread_mutex_lock` and `pthread_mutex_unlock` succeed.
pub record Calls : Type 0 where
  pub calloc : Bool
  pub lock : Bool
  pub unlock : Bool

-- The loop to the last node, and the node behind it.
unfoldable pub link_last : List HttpConnCtx → HttpConnCtx → List HttpConnCtx
link_last [] new_ctx = new_ctx ∷ []
link_last (node ∷ rest) new_ctx = node ∷ link_last rest new_ctx

-- The family is `AF_INET`, and 16 the size of a `struct sockaddr_in`.
abbrev pub new_conn : ℤ → Bytes → HttpConnCtx
new_conn client_fd client_addr = record {
  client_fd = client_fd;
  client_addr = record { family = 2; socklen = 16; addr = client_addr };
  req = zero_request;
  res = zero_response;
}

unfoldable pub ctx_http_insert : Calls → ServerCtx → ℤ → Bytes → ℤ × ServerCtx
ctx_http_insert calls ctx client_fd client_addr =
    let linked = record ctx {
      http_conn_head = link_last ctx.http_conn_head (new_conn client_fd client_addr);
      client_count = ctx.client_count + 1;
    } in
    if is_neg client_fd
    then (Rc.arg_invalid, ctx)
    else if leb max_clients ctx.client_count
    then (Rc.ctx, ctx)
    else if not calls.calloc
    then (Rc.ctx, ctx)
    else if not calls.lock
    then (Rc.ctx, ctx)
    else ((if calls.unlock then Rc.ok else Rc.ctx), linked)
