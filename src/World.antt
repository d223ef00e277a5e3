-- ===== src/World.antt =====
-- What lies outside the program and is not read here: the Redis server behind hiredis, `write`,
-- `malloc` and `time`. They are the fields of a platform, a parameter of all that uses them. The
-- world is what the server's code changes through them.
use zam_tok.Prelude.{ℕ, ℤ, pos, Bool, List, [], ◌∷◌, Option, none, some, Bytes}

-- `redisReply`, by its type; a reply that is no integer has `integer == 0`, and one with no text has
-- `str == NULL`.
mutual
  pub data Reply : Type 0 where
    nil_reply : Reply
    integer : ℤ → Reply
    string status error : Bytes → Reply
    array : Replies → Reply

  pub data Replies : Type 0 where
    nil : Replies
    cons : Reply → Replies → Replies

abbrev pub replies : Replies → List Reply
replies nil = []
replies (cons r rs) = r ∷ replies rs

-- `reply->str`
abbrev pub str_of : Reply → Option Bytes
str_of (string s) = some s
str_of (status s) = some s
str_of (error s) = some s
str_of nil_reply = none
str_of (integer n) = none
str_of (array rs) = none

-- `reply->integer`
abbrev pub integer_of : Reply → ℤ
integer_of (integer n) = n
integer_of nil_reply = pos 0
integer_of (string s) = pos 0
integer_of (status s) = pos 0
integer_of (error s) = pos 0
integer_of (array rs) = pos 0

-- A reply that is neither NULL nor an error.
abbrev pub answered : Option Reply → Option Reply
answered none = none
answered (some (error s)) = none
answered (some nil_reply) = some nil_reply
answered (some (integer n)) = some (integer n)
answered (some (string s)) = some (string s)
answered (some (status s)) = some (status s)
answered (some (array rs)) = some (array rs)

pub record Platform : Type 1 where
  pub Store : Type 0
  -- `redisCommand`: the words of the command, and what the database holds
  pub redis_command : List Bytes → Store → Option Reply × Store
  -- what `write` returns for a descriptor and its bytes
  pub write : ℤ → Bytes → ℤ
  -- whether `malloc` succeeds
  pub malloc : Bool
  -- `time(NULL)`
  pub time : ℕ

-- `connected` is `g_redis_ctx != NULL`; `sent` lists the calls of `write`, the first one first.
pub record World (P : Platform) : Type 0 where
  pub store : P.Store
  pub connected : Bool
  pub sent : List (ℤ × Bytes)
