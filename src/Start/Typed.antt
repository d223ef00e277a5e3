-- ===== src/Start/Typed.antt =====
-- The types of the keys in the database of the server that `main` of src/SERVER/zt_main.c starts.
use zam_tok.Prelude.{List, Bytes, ◌≡◌, sym, subst, arith}
use zam_tok.World.{Platform, World}
use zam_tok.Redis.Laws.{IsRedis}
use zam_tok.Redis.Families.{IsTyped, ReadsOnly, typed_invariant}
use zam_tok.Loop.{Server, Reach}
use zam_tok.Redis.RoomList.{redis_connect}
use zam_tok.Loop.Kept.{Reach-Still}
use zam_tok.Start.Serving.{server_main-ends}
use zam_tok.Start.{first_server, System, Started, refused, serving, ended, with_redis, server_main}

module _ {P : Platform} (sys : System) (L : IsRedis P) (R : ReadsOnly P) where
  -- Of a server that was started: in every state that turns lead to, the keys have their types.
  abbrev pub WhereTyped : Started P → Type 0
  WhereTyped refused = Unit
  WhereTyped (ended w) = IsTyped L w.store
  WhereTyped (serving socket s) = (t : Server P) → Reach s t → IsTyped L t.world.store

  with_redis-store : (w : World P) → (with_redis sys w).store ≡ w.store
  unfolding redis_connect
  with_redis-store w = ground arith

  -- On a platform with the laws of Redis, whose `SMEMBERS` and `SCAN` leave the database as it is: if every
  -- key of a user, a number, a room, a list of friends, of members or of rooms is absent or holds a hash,
  -- a text, a hash or a set respectively where `main` begins, this is so in every state that turns of the
  -- event loop of the server lead to, and where `main` ends without coming to that loop.
  pub server_main-IsTyped :
      (argv : List Bytes) (w : World P) → IsTyped L w.store → WhereTyped (server_main sys argv w)
  server_main-IsTyped argv w h =
      let h' = subst (IsTyped L) (sym (with_redis-store w)) h in
      server_main-ends sys WhereTyped argv w tt h' (λ socket t r.
        Reach-Still (typed_invariant L R) (first_server sys socket (with_redis sys w)) t r h')
