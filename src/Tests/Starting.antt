-- ===== src/Tests/Starting.antt =====
-- The theorems about the start of the two programs at concrete inputs.
use zam_tok.Prelude.{pos, true, false, List, [], ◌∷◌, none, some, codes, ◌≡◌, refl, arith}
use zam_tok.Redis.Laws.Model.{platform, empty_world}
use zam_tok.Hdl.Request.{received, broken}
use zam_tok.Start.{System, serving, with_redis, first_server, server_main}
use zam_tok.CString.{str_eq}
use zam_tok.Redis.Laws.Model.{model_laws}
use zam_tok.Redis.Families.{ReadsOnly}
use zam_tok.Tests.Typed.{empty-IsTyped}
use zam_tok.Start.Typed.{WhereTyped, server_main-IsTyped}
use zam_tok.Start.Serving.{WhereServing, server_main-IsSound, server_main-serves}
use zam_tok.Connect.{Network, Wait, readable, client_main}
use zam_tok.Connect.Closed.{Holds, client_main-Holds}

-- The port is taken.
abbrev system : System
system = record {
  socket = pos 3;
  setsockopt = true;
  bind = λ port. false;
  listen = true;
  get_flags = true;
  set_flags = true;
  mutex_init = true;
  epoll_create = pos 4;
  epoll_add = λ socket. true;
  atoi = λ s. pos 80;
  redis_host = none;
  redis_port = none;
  redis_connects = λ host port. true;
}

server_main-IsSound_example :
    WhereServing system (server_main {P = platform} system (codes "80" ∷ []) empty_world)
server_main-IsSound_example = server_main-IsSound system (codes "80" ∷ []) empty_world

server_main-serves_example :
    server_main {P = platform} system (codes "80" ∷ []) empty_world
    ≡ serving (pos 3) (first_server system (pos 3) (with_redis system empty_world))
server_main-serves_example =
    server_main-serves system (codes "80") [] empty_world 80 3 4 refl refl refl refl refl

abbrev network : Network
network = record {
  socket = pos 3;
  get_flags = true;
  set_flags = true;
  resolve = λ host port. some (false ∷ true ∷ []);
  thread = pos 0;
  epoll_create = pos 4;
  epoll_add = true;
  atoi = λ s. pos 80;
}

abbrev reports : List Wait
reports = readable (received (codes "HTTP/1.1 200 OK\r\n")) ∷ readable broken ∷ []

client_main-Holds_example :
    Holds [] []
      (pos 4 ∷ pos 3 ∷ [])
      (client_main network (codes "localhost" ∷ codes "80" ∷ []) reports)
client_main-Holds_example =
    client_main-Holds network (ground arith) (codes "localhost" ∷ codes "80" ∷ []) reports

model_reads : ReadsOnly platform
unfolding str_eq
model_reads = record { smembers_law = λ id s. refl; scan_law = λ c s. refl }

server_main-IsTyped_example :
    WhereTyped system model_laws model_reads
      (server_main {P = platform} system (codes "80" ∷ []) empty_world)
server_main-IsTyped_example =
    server_main-IsTyped system model_laws model_reads (codes "80" ∷ []) empty_world empty-IsTyped
