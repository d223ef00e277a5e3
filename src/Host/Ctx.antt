-- ===== src/Host/Ctx.antt =====
-- The client's copy of the list of connections: src/CLIENT/zt_ctx.c and src/CLIENT/zt_ctx.h. What `calloc`
-- and the calls on the mutex return are arguments; a linked list is the list of its nodes.
use zam_tok.Prelude.{
  ℕ, ◌+◌, ◌≤◌, ℤ, is_neg, Bool, not, List, [], ◌∷◌, Bytes, ◌≡◌, refl, arith, ◌==◌, if◌then◌else◌,
  length, replicate,
}
use zam_tok.Codes.Rc
use zam_tok.Codes.Size
use zam_tok.Ctx.{Calls}

-- `HeaderType_t`
pub record HeaderType : Type 0 where
  pub name : Bytes
  pub value : Bytes

-- `ReqType_t` without `t_header_type`, `header_cnt` and `body`, which nothing reads or writes
pub record ReqType : Type 0 where
  pub method : Bytes
  pub uri : Bytes
  pub version : Bytes
  pub t_content_header : List HeaderType
  pub content_cnt : ℕ

abbrev pub no_type : HeaderType
no_type = record { name = []; value = [] }

abbrev pub zero_msg : ReqType
zero_msg = record {
  method = [];
  uri = [];
  version = [];
  t_content_header = replicate Size.header_count no_type;
  content_cnt = 0;
}

-- `HttpCTX_t` by the two fields that are set; the others are zero
pub record HttpCtx : Type 0 where
  pub client_fd : ℤ
  pub t_client_addr : Bytes

-- `ZT_CTX_t` without its mutex
pub record ZtCtx : Type 0 where
  pub pt_http_ctx : List HttpCtx
  pub client_cnt : ℕ

-- `MAX_CLIENTS` of the client
abbrev pub max_hosted : ℕ
max_hosted = 64

abbrev pub empty_ctx : ZtCtx
empty_ctx = record { pt_http_ctx = []; client_cnt = 0 }

-- `CTX_Init`
unfoldable pub init_hosted : Bool → ZtCtx → ℤ × ZtCtx
init_hosted mutex_init ctx = ((if mutex_init then Rc.ok else Rc.ctx), empty_ctx)

-- `CTX_Http_Insert`: the new node comes first, and the list is full at the very number 64.
unfoldable pub insert_hosted : Calls → ZtCtx → ℤ → Bytes → ℤ × ZtCtx
insert_hosted calls ctx client_fd addr =
    let linked : ZtCtx = record {
      pt_http_ctx = record { client_fd = client_fd; t_client_addr = addr } ∷ ctx.pt_http_ctx;
      client_cnt = ctx.client_cnt + 1;
    } in
    if is_neg client_fd
    then (Rc.arg_invalid, ctx)
    else if ctx.client_cnt == max_hosted
    then (Rc.ctx, ctx)
    else if not calls.calloc
    then (Rc.ctx, ctx)
    else if not calls.lock
    then (Rc.ctx, ctx)
    else ((if calls.unlock then Rc.ok else Rc.ctx), linked)

pub record IsHosted (c : ZtCtx) : Type 0 where
  pub counted : c.client_cnt ≡ length c.pt_http_ctx
  pub bounded : c.client_cnt ≤ max_hosted

-- Whatever the calls return, each of the two functions leaves the count of the clients equal to the length
-- of the list, and at most 64, though the code tests for the number 64 alone.
insert_hosted-IsHosted :
    (c : ZtCtx) (mutex_init : Bool) (calls : Calls) (fd : ℤ) (addr : Bytes)
    → IsHosted c
    → IsHosted (init_hosted mutex_init c).1 × IsHosted (insert_hosted calls c fd addr).1
unfolding init_hosted insert_hosted
insert_hosted-IsHosted c mutex_init calls fd addr h =
    (record { counted = refl; bounded = omega arith }, ground arith)
