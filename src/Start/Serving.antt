-- ===== src/Start/Serving.antt =====
-- The server that `main` of src/SERVER/zt_main.c comes to.
use zam_tok.Prelude.{
  ℕ, zero, suc, ℤ, pos, negsuc, is_neg, Bool, true, false, List, [], ◌∷◌, Bytes, ◌≡◌, refl, arith,
  if◌then◌else◌, get_or, replicate,
}
use zam_tok.World.{Platform, World}
use zam_tok.Ctx.{ctx_init, zero_ctx}
use zam_tok.Loop.{Server, is_among, Reach}
use zam_tok.Loop.Tables.{fd_eq_iff}
use zam_tok.Loop.Sound.{IsSound, Reach-IsSound}
use zam_tok.Start.{
  System, socket_bind, socket_init, enters_loop, Started, refused, serving, ended, with_redis,
  first_server, start, server_main,
}

all_clear : (k n : ℕ) → get_or (replicate k false) n false ≡ false
all_clear zero n = refl
all_clear (suc k) zero = refl
all_clear (suc k) (suc n) = all_clear k n

module _ {P : Platform} (sys : System) where
  first_server-IsSound : (socket : ℤ) (w : World P) → IsSound socket (first_server sys socket w)
  unfolding ctx_init is_among
  first_server-IsSound socket w = record {
    clients = record { counted = refl; bounded = omega arith };
    mirrors = record {
      sized = refl;
      mirrored = λ n other. ground (arith, all_clear 96 n, fd_eq_iff socket (pos n));
    };
  }

  -- A server that was started is sound.
  abbrev pub WhereServing : Started P → Type 0
  WhereServing refused = Unit
  WhereServing (ended w) = Unit
  WhereServing (serving socket s) = (t : Server P) → Reach s t → IsSound socket t

  serving-Sound :
      (socket : ℤ) (w : World P) → WhereServing (serving socket (first_server sys socket w))
  serving-Sound socket w t r =
      Reach-IsSound socket (first_server sys socket w) t r (first_server-IsSound socket w)

  unless :
      (Q : Started P → Type 0) (b : Bool) (x y : Started P) → Q x → Q y → Q (if b then x else y)
  unless Q true x y h k = h
  unless Q false x y h k = k

  -- `main` comes to one of three ends.
  pub server_main-ends :
      (Q : Started P → Type 0) (argv : List Bytes) (w : World P)
      → Q refused
      → Q (ended (record (with_redis sys w) { connected = false }))
      → ((socket : ℤ) → Q (serving socket (first_server sys socket (with_redis sys w))))
      → Q (server_main sys argv w)
  unfolding server_main start
  server_main-ends Q [] w a b c = a
  server_main-ends Q (port ∷ rest) w a b c =
      let made = socket_init sys (negsuc 0) in
      unless Q (is_neg (sys.atoi port)) _ _ a (
        unless Q (is_neg made.0) _ _ b (
          unless Q (is_neg (socket_bind sys made.1 (sys.atoi port))) _ _ b (
            unless Q (is_neg (ctx_init sys.mutex_init zero_ctx).0) _ _ b
              (unless Q (enters_loop sys made.1) _ _ (c made.1) b))))

  -- Whatever the system calls return, the event loop of a server that `main` starts keeps its records: in
  -- every state that turns lead to, the number of clients is the length of their list and at most 100, and
  -- the bit of any descriptor but the listening socket in `g_client_fd` is set exactly if epoll watches the
  -- descriptor.
  pub server_main-IsSound :
      (argv : List Bytes) (w : World P) → WhereServing (server_main sys argv w)
  server_main-IsSound argv w =
      server_main-ends WhereServing argv w tt tt (λ socket. serving-Sound socket (with_redis sys w))

  -- Where the system makes a socket and the epoll instance takes it, `main` comes to its loop for every
  -- port that is not negative, whether or not the socket could be bound to the port, listens, or is made
  -- nonblocking.
  pub server_main-serves :
      (port : Bytes) (rest : List Bytes) (w : World P) (n m k : ℕ)
      → sys.atoi port ≡ pos n
      → sys.socket ≡ pos m
      → sys.setsockopt ≡ true
      → sys.epoll_create ≡ pos k
      → sys.epoll_add (pos m) ≡ true
      → server_main sys (port ∷ rest) w
        ≡ serving (pos m) (first_server sys (pos m) (with_redis sys w))
  unfolding server_main start enters_loop socket_bind socket_init ctx_init
  server_main-serves port rest w n m k a b c d e = ground arith
