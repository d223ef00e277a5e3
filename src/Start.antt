-- ===== src/Start.antt =====
-- The start of the server: `main` of src/SERVER/zt_main.c up to the loop, with `socket_init`, `socket_bind`
-- and `socket_set_nonblocking` of src/SERVER/zt_socket.c. What the system calls return is a record.
pub mod Serving
pub mod Typed
use zam_tok.Prelude.{
  ℕ, ◌+◌, zero, suc, ◌-◌, ◌*◌, ◌≤◌, ◌<◌, ℤ, pos, negsuc, is_neg, is_pos, is_nat, Bool, true, false,
  not, ◌&&◌, ◌||◌, List, [], ◌∷◌, ◌++◌, Option, none, some, Bytes, codes, ◌≡◌, ◌≢◌, ◌↔◌, ◌⊎◌, inl,
  inr, refl, sym, ap, ◌∙◌, subst, arith, ◌==◌, ltb, leb, if◌then◌else◌, Bool-cases, Option-cases,
  length, take, drop, get_or, set, append_assoc, append-nil, length-append, All, replicate,
  List-cases,
}
use zam_tok.Codes.Rc
use zam_tok.World.{Platform, World}
use zam_tok.Redis.RoomList.{redis_connect}
use zam_tok.Ctx.{ctx_init, zero_ctx}
use zam_tok.Loop.{Server, client_bits}

-- What `socket` and `epoll_create1` return, and whether the other calls succeed; `atoi` is a function.
pub record System : Type 0 where
  pub socket : ℤ
  pub setsockopt : Bool
  pub bind : ℤ → Bool
  pub listen : Bool
  pub get_flags : Bool
  pub set_flags : Bool
  pub mutex_init : Bool
  pub epoll_create : ℤ
  pub epoll_add : ℤ → Bool
  pub atoi : Bytes → ℤ
  pub redis_host : Option Bytes
  pub redis_port : Option Bytes
  pub redis_connects : Bytes → ℤ → Bool

module _ (sys : System) where
  unfoldable pub socket_set_nonblocking : ℤ → ℤ
  socket_set_nonblocking socket =
      if is_neg socket
      then Rc.arg_invalid
      else if not sys.get_flags
      then Rc.socket
      else if not sys.set_flags
      then Rc.socket
      else Rc.ok

  unfoldable pub socket_bind : ℤ → ℤ → ℤ
  socket_bind socket port =
      if is_neg socket
      then Rc.arg_invalid
      else if is_neg port
      then Rc.arg_invalid
      else if not (sys.bind port)
      then Rc.socket
      else if not sys.listen
      then Rc.socket
      else Rc.ok

  -- The code, and what is in `*pSocket`; the descriptor is not closed if its option is refused.
  unfoldable pub socket_init : ℤ → ℤ × ℤ
  socket_init p_socket =
      if is_neg sys.socket
      then (Rc.socket, p_socket)
      else if not sys.setsockopt
      then (Rc.socket, p_socket)
      else (Rc.ok, sys.socket)

  -- Whether `socket_event_loop` comes to its loop.
  unfoldable pub enters_loop : ℤ → Bool
  unfolding socket_set_nonblocking
  enters_loop socket =
      if is_neg sys.epoll_create
      then false
      else if not (sys.epoll_add socket)
      then false
      else not (is_neg (socket_set_nonblocking socket))

  -- `getenv("REDIS_PORT")`, or else 6379
  abbrev pub redis_port_of : Option Bytes → ℤ
  redis_port_of none = pos 6379
  redis_port_of (some s) = sys.atoi s

-- The server is told to stop at once, or comes to its loop with a listening socket, or leaves `main` with
-- the database disconnected.
pub data Started (P : Platform) : Type 0 where
  refused : Started P
  serving : ℤ → Server P → Started P
  ended : World P → Started P

module _ {P : Platform} (sys : System) where
  abbrev initial_server : World P → Server P
  initial_server w = record {
    world = w;
    ctx = (ctx_init sys.mutex_init zero_ctx).1;
    client_fds = replicate client_bits false;
    watched = [];
    closed = [];
  }

  -- Where `socket_event_loop` comes to its loop: epoll watches the listening socket.
  abbrev pub first_server : ℤ → World P → Server P
  first_server socket w = record (initial_server w) { watched = socket ∷ [] }

  abbrev pub with_redis : World P → World P
  with_redis w =
      (redis_connect sys.redis_connects sys.redis_host (redis_port_of sys sys.redis_port) w).1

  -- What follows the tests of the arguments.
  unfoldable pub start : ℤ → World P → Started P
  unfolding redis_connect socket_init socket_bind ctx_init enters_loop
  start port w =
      let up = with_redis w in
      let made = socket_init sys (negsuc 0) in
      let down = ended (record up { connected = false }) in
      if is_neg made.0
      then down
      else if is_neg (socket_bind sys made.1 port)
      then down
      else if is_neg (ctx_init sys.mutex_init zero_ctx).0
      then down
      else if enters_loop sys made.1
      then serving made.1 (first_server made.1 up)
      else down

  -- `main`: the arguments behind the name of the program.
  unfoldable pub server_main : List Bytes → World P → Started P
  unfolding start
  server_main [] w = refused
  server_main (port ∷ rest) w = if is_neg (sys.atoi port) then refused else start (sys.atoi port) w
