-- ===== src/Connect/Closed.antt =====
-- What src/CLIENT/zt_main.c opens, it closes.
use zam_tok.Prelude.{
  ℤ, pos, negsuc, is_neg, is_nat, true, false, List, [], ◌∷◌, ◌++◌, Option, none, some, Bytes, ◌≡◌,
  inl, inr, refl, sym, ap, ◌∙◌, subst, arith, Bool-cases,
}
use zam_tok.Codes.Rc
use zam_tok.Hdl.Request.{Read}
use zam_tok.Loop.{fd_eq, without}
use zam_tok.Loop.Tables.{fd_eq_iff}
use zam_tok.Connect.{
  Network, Act, opens, closes, starts_terminal, prints, Wait, fails, interrupted, no_input,
  readable, hdl_client_recv, wait_loop, set_nonblocking, Call, code, runs, event_loop, close_socket,
  converse, socket_open, socket_connect, talk_over, connect_to, client_main, with_port, port_text,
}

-- The descriptors that are open behind acts.
unfoldable pub still_open : List ℤ → List Act → List ℤ
unfolding without
still_open fds [] = fds
still_open fds (opens fd ∷ acts) = still_open (fd ∷ fds) acts
still_open fds (closes fd ∷ acts) = still_open (without fd fds) acts
still_open fds (starts_terminal fd ∷ acts) = still_open fds acts
still_open fds (prints s ∷ acts) = still_open fds acts

still_open-append :
    (fds : List ℤ) (a b : List Act) → still_open fds (a ++ b) ≡ still_open (still_open fds a) b
unfolding still_open
still_open-append fds [] b = refl
still_open-append fds (opens fd ∷ a) b = still_open-append (fd ∷ fds) a b
still_open-append fds (closes fd ∷ a) b = still_open-append (without fd fds) a b
still_open-append fds (starts_terminal fd ∷ a) b = still_open-append fds a b
still_open-append fds (prints s ∷ a) b = still_open-append fds a b

recv-open :
    (fds : List ℤ) (socket : ℤ) (r : Read) → still_open fds (hdl_client_recv socket r).1 ≡ fds
unfolding still_open hdl_client_recv
recv-open fds socket r = ground arith

loop-open :
    (fds : List ℤ) (socket : ℤ) (ws : List Wait) → still_open fds (wait_loop socket ws).1 ≡ fds
unfolding still_open wait_loop
loop-open fds socket [] = refl
loop-open fds socket (fails ∷ ws) = refl
loop-open fds socket (interrupted ∷ ws) = loop-open fds socket ws
loop-open fds socket (no_input ∷ ws) = loop-open fds socket ws
loop-open fds socket (readable r ∷ ws) = elim (Bool-cases (is_nat (hdl_client_recv socket r).0 0)) [
  | inl e ↦ rw e (
      still_open-append fds (hdl_client_recv socket r).1 (wait_loop socket ws).1
      ∙ ap (λ (f : List ℤ). still_open f (wait_loop socket ws).1) (recv-open fds socket r)
      ∙ loop-open fds socket ws)
  | inr e ↦ rw e (recv-open fds socket r)
]

-- What is open behind a call: one list of descriptors once it has returned, another while it runs.
abbrev pub Holds : List ℤ → List ℤ → List ℤ → Call × List Act → Type 0
Holds before returned running (code rc, acts) = still_open before acts ≡ returned
Holds before returned running (runs, acts) = still_open before acts ≡ running

module _ (net : Network) (socket : ℤ) (up : is_neg socket ≡ false)
    (apart : fd_eq socket net.epoll_create ≡ false) where
  closed-again :
      (acts : List Act)
      → still_open (net.epoll_create ∷ socket ∷ []) acts ≡ net.epoll_create ∷ socket ∷ []
      → still_open (net.epoll_create ∷ socket ∷ []) (acts ++ closes net.epoll_create ∷ [])
        ≡ socket ∷ []
  unfolding still_open without
  closed-again acts h =
      still_open-append (net.epoll_create ∷ socket ∷ []) acts (closes net.epoll_create ∷ [])
      ∙ ground (arith, h, fd_eq_iff net.epoll_create net.epoll_create)

  abbrev both : List ℤ
  both = net.epoll_create ∷ socket ∷ []

  event_loop-Holds :
      (ws : List Wait) → Holds (socket ∷ []) (socket ∷ []) both (event_loop net socket ws)
  unfolding event_loop still_open without
  event_loop-Holds ws =
      let stays = loop-open (net.epoll_create ∷ socket ∷ []) socket ws in
      let again = closed-again (wait_loop socket ws).1 stays in
      let none_ = closed-again [] refl in
      elim (Bool-cases (is_neg net.epoll_create)) [
        | inl e ↦ rw (up, e, Holds) refl
        | inr e ↦ elim (Bool-cases net.epoll_add) [
          | inr e' ↦ rw (up, e, e', Holds) none_
          | inl e' ↦ elim (Bool-cases (is_nat (set_nonblocking net socket) 0)) [
            | inr bad ↦ rw (bad, up, e, e', Holds) none_
            | inl good ↦ elim (Bool-cases (wait_loop socket ws).0) [
              | inl on ↦ rw (good, up, e, e', on, Holds) stays
              | inr off ↦ rw (good, up, e, e', off, Holds) again
            ]
          ]
        ]
      ]

  -- Behind the label `close_socket`, with the socket opened first.
  close_socket-Holds :
      (out : Call × List Act)
      → Holds (socket ∷ []) (socket ∷ []) both out
      → Holds [] [] both (close_socket net socket (out.0, opens socket ∷ out.1))
  unfolding still_open without
  close_socket-Holds (code rc, acts) h = rw up (
      still_open-append (socket ∷ []) acts (closes socket ∷ [])
      ∙ ground (arith, h, fd_eq_iff socket socket))
  close_socket-Holds (runs, acts) h = h

  converse-Holds :
      (ws : List Wait) → Holds (socket ∷ []) (socket ∷ []) both (converse net socket ws)
  unfolding converse still_open
  converse-Holds ws = elim (Bool-cases (is_neg net.thread)) [
    | inl e ↦ rw (e, Holds) refl
    | inr e ↦ rw (e, Holds) (started (event_loop net socket ws) (event_loop-Holds ws))
  ]
    where
      started :
          (out : Call × List Act)
          → Holds (socket ∷ []) (socket ∷ []) both out
          → Holds (socket ∷ []) (socket ∷ []) both (out.0, starts_terminal socket ∷ out.1)
      started (code rc, acts) h = h
      started (runs, acts) h = h

  talk_over-Holds :
      (host : Bytes) (port : ℤ) (ws : List Wait)
      → Holds [] [] both (talk_over net host port ws (Rc.ok, socket))
  unfolding talk_over still_open
  talk_over-Holds host port ws =
      elim (Bool-cases (is_nat (socket_connect net socket host port) 0)) [
        | inl fine ↦
            rw (fine, Holds) (close_socket-Holds (converse net socket ws) (converse-Holds ws))
        | inr bad ↦ rw (bad, Holds) (close_socket-Holds (code (pos 0), []) refl)
      ]

with_port-Holds :
    (o : Option Bytes) (fds : List ℤ) (out : Call × List Act)
    → Holds [] [] fds out
    → Holds [] [] fds (with_port o out)
unfolding still_open
with_port-Holds none fds out h = refl
with_port-Holds (some text) fds out h = h

module _ (net : Network) (apart : fd_eq net.socket net.epoll_create ≡ false) where
  socket_open-up : is_neg net.socket ≡ false → socket_open net (negsuc 0) ≡ (Rc.ok, net.socket)
  unfolding socket_open
  socket_open-up e = rw e refl

  socket_open-down : is_neg net.socket ≡ true → socket_open net (negsuc 0) ≡ (Rc.socket, negsuc 0)
  unfolding socket_open
  socket_open-down e = rw e refl

  connect_to-Holds :
      (host : Bytes) (port : ℤ) (ws : List Wait)
      → Holds [] [] (net.epoll_create ∷ net.socket ∷ []) (connect_to net host port ws)
  unfolding connect_to still_open
  connect_to-Holds host port ws =
      let Held = λ (made : ℤ × ℤ).
        Holds [] [] (net.epoll_create ∷ net.socket ∷ []) (talk_over net host port ws made) in
      elim (Bool-cases (is_neg net.socket)) [
        | inl e ↦ subst Held (sym (socket_open-down e)) refl
        | inr e ↦
            subst Held (sym (socket_open-up e))
              (talk_over-Holds net net.socket e apart host port ws)
      ]

  -- Whatever the system calls return, if the descriptors of the socket and of the epoll instance differ,
  -- then the client's `main` has closed both, and every other that it opened, once it returns, and while
  -- its event loop runs, these two are open and no other.
  pub client_main-Holds :
      (argv : List Bytes) (ws : List Wait)
      → Holds [] [] (net.epoll_create ∷ net.socket ∷ []) (client_main net argv ws)
  unfolding client_main still_open
  client_main-Holds [] ws = refl
  client_main-Holds (host ∷ []) ws = refl
  client_main-Holds (host ∷ port ∷ rest) ws =
      with_port-Holds (port_text (net.atoi port)) (net.epoll_create ∷ net.socket ∷ [])
        (connect_to net host (net.atoi port) ws) (connect_to-Holds host (net.atoi port) ws)
