-- ===== src/Connect.antt =====
-- The client's connection: src/CLIENT/zt_sock.c but for its senders, `HDL_CLIENT_RECV` of
-- src/CLIENT/zt_hdl.c, src/CLIENT/zt_evt.c as the client calls it, and src/CLIENT/zt_main.c. What the
-- system calls return is a record; what they do is a list of acts.
pub mod Closed
use zam_tok.Prelude.{
  ℕ, ◌+◌, zero, suc, ◌-◌, ◌*◌, ◌≤◌, ◌<◌, ℤ, pos, negsuc, is_neg, is_pos, is_nat, Bool, true, false,
  not, ◌&&◌, ◌||◌, List, [], ◌∷◌, ◌++◌, Option, none, some, Bytes, codes, ◌≡◌, ◌≢◌, ◌↔◌, ◌⊎◌, inl,
  inr, refl, sym, ap, ◌∙◌, subst, arith, ◌==◌, ltb, leb, if◌then◌else◌, Bool-cases, Option-cases,
  length, take, drop, get_or, set, append_assoc, append-nil, length-append, All, replicate,
  List-cases,
}
use zam_tok.CString.{fit, take_until, decimal}
use zam_tok.Codes.Rc
use zam_tok.Hdl.Request.{Read, received, again, broken}
use zam_tok.Loop.{without}

-- What `socket`, `epoll_create1` and `pthread_create` return, and whether the other calls succeed;
-- `resolve` is `getaddrinfo`, and tells of each address that it finds whether `connect` reaches it.
pub record Network : Type 0 where
  pub socket : ℤ
  pub get_flags : Bool
  pub set_flags : Bool
  pub resolve : Bytes → Bytes → Option (List Bool)
  pub thread : ℤ
  pub epoll_create : ℤ
  pub epoll_add : Bool
  pub atoi : Bytes → ℤ

-- What is done to descriptors and to the terminal.
pub data Act : Type 0 where
  opens closes : ℤ → Act
  starts_terminal : ℤ → Act
  prints : Bytes → Act

-- What `epoll_wait` reports: an error, an interruption, or an event of the socket.
pub data Wait : Type 0 where
  fails interrupted no_input : Wait
  readable : Read → Wait

-- Its code, and the text that it prints, of the at most 1023 bytes that were read.
unfoldable pub hdl_client_recv : ℤ → Read → ℤ × List Act
unfolding take_until
hdl_client_recv socket r = if is_neg socket then (Rc.arg_invalid, []) else elim r [
  | again ↦ (Rc.ok, [])
  | broken ↦ (Rc.socket, [])
  | received bytes ↦ elim bytes [
    | [] ↦ (Rc.socket, [])
    | c ∷ s ↦ (Rc.ok, prints (take_until (λ b. b == 0) (take 1023 (c ∷ s))) ∷ [])
  ]
]

-- The loop over what is reported: whether it still runs, and its acts.
unfoldable pub wait_loop : ℤ → List Wait → Bool × List Act
unfolding hdl_client_recv
wait_loop socket [] = (true, [])
wait_loop socket (fails ∷ ws) = (false, [])
wait_loop socket (interrupted ∷ ws) = wait_loop socket ws
wait_loop socket (no_input ∷ ws) = wait_loop socket ws
wait_loop socket (readable r ∷ ws) =
    let got = hdl_client_recv socket r in
    let rest = wait_loop socket ws in
    if is_nat got.0 0 then (rest.0, got.1 ++ rest.1) else (false, got.1)

-- The loop over the addresses.
unfoldable pub connect_loop : List Bool → ℤ
connect_loop [] = Rc.socket
connect_loop (true ∷ rest) = Rc.ok
connect_loop (false ∷ rest) = connect_loop rest

-- `port <= 0 || port > 65535`, and the digits of any other
abbrev pub port_text : ℤ → Option Bytes
port_text (pos n) = if leb 1 n && leb n 65535 then some (fit 8 (decimal n)) else none
port_text (negsuc n) = none

-- A call that returns with a code, or is still in its loop.
pub data Call : Type 0 where
  code : ℤ → Call
  runs : Call

-- `main` returns -1 at once for a port that is none.
abbrev pub with_port : Option Bytes → Call × List Act → Call × List Act
with_port none talk = (code (negsuc 0), [])
with_port (some text) talk = talk

module _ (net : Network) where
  -- `SET_NONBLOCKING`
  unfoldable pub set_nonblocking : ℤ → ℤ
  set_nonblocking socket =
      if is_neg socket
      then Rc.arg_invalid
      else if not net.get_flags
      then Rc.socket
      else if not net.set_flags
      then Rc.socket
      else Rc.ok

  -- `SOCKET_Init`: the code, and what is in `*pSocket`.
  unfoldable pub socket_open : ℤ → ℤ × ℤ
  socket_open p_socket = if is_neg net.socket then (Rc.socket, p_socket) else (Rc.ok, net.socket)

  unfoldable pub socket_connect : ℤ → Bytes → ℤ → ℤ
  unfolding connect_loop
  socket_connect socket host port =
      if is_neg socket then Rc.arg_invalid else elim (port_text port) [
        | none ↦ Rc.arg_invalid
        | some port_str ↦ elim (net.resolve host port_str) [
          | none ↦ Rc.socket
          | some addresses ↦ connect_loop addresses
        ]
      ]

  -- `EventLoop` as a client: `close_event` closes the epoll instance.
  unfoldable pub event_loop : ℤ → List Wait → Call × List Act
  unfolding set_nonblocking wait_loop
  event_loop socket ws =
      let epfd = net.epoll_create in
      let loop = wait_loop socket ws in
      if is_neg socket
      then (code Rc.arg_invalid, [])
      else if is_neg epfd
      then (code Rc.socket, [])
      else if not net.epoll_add
      then (code Rc.socket, opens epfd ∷ closes epfd ∷ [])
      else if not (is_nat (set_nonblocking socket) 0)
      then (code Rc.socket, opens epfd ∷ closes epfd ∷ [])
      else if loop.0
      then (runs, opens epfd ∷ loop.1)
      else (code Rc.socket, opens epfd ∷ loop.1 ++ closes epfd ∷ [])

  -- Behind the label `close_socket`.
  abbrev pub close_socket : ℤ → Call × List Act → Call × List Act
  close_socket socket (code rc, acts) =
      (code (pos 0), (if is_neg socket then acts else acts ++ closes socket ∷ []))
  close_socket socket (runs, acts) = (runs, acts)

  -- With the socket open.
  unfoldable pub converse : ℤ → List Wait → Call × List Act
  unfolding event_loop
  converse socket ws =
      if is_neg (if is_neg net.thread then negsuc 0 else pos 0)
      then (code (negsuc 0), [])
      else let looped = event_loop socket ws in (looped.0, starts_terminal socket ∷ looped.1)

  -- With the code of `SOCKET_Init` and what is in its argument.
  unfoldable pub talk_over : Bytes → ℤ → List Wait → ℤ × ℤ → Call × List Act
  unfolding socket_connect converse
  talk_over host port ws (rc, socket) =
      let talk = converse socket ws in
      if not (is_nat rc 0)
      then close_socket socket (code rc, [])
      else if not (is_nat (socket_connect socket host port) 0)
      then close_socket socket (code (pos 0), opens socket ∷ [])
      else close_socket socket (talk.0, opens socket ∷ talk.1)

  unfoldable pub connect_to : Bytes → ℤ → List Wait → Call × List Act
  unfolding socket_open talk_over
  connect_to host port ws = talk_over host port ws (socket_open (negsuc 0))

  -- `main`: the arguments behind the name of the program.
  unfoldable pub client_main : List Bytes → List Wait → Call × List Act
  unfolding connect_to
  client_main [] ws = (code (negsuc 0), [])
  client_main (host ∷ []) ws = (code (negsuc 0), [])
  client_main (host ∷ port ∷ rest) ws =
      with_port (port_text (net.atoi port)) (connect_to host (net.atoi port) ws)
