-- ===== src/Redis/Calls.antt =====
-- One command and its reply, and `redis_exists_key` (src/SERVER/zt_redis.c).
use zam_tok.Prelude.{
  ℕ, ℤ, pos, negsuc, is_pos, List, [], Option, none, some, Bytes, if◌then◌else◌, get_elem?,
}
use zam_tok.CString.{fit}
use zam_tok.Codes.Rc
use zam_tok.World.{Reply, str_of, integer_of, answered, Platform, World}
use zam_tok.Redis.Keys.{exists_words}

-- The text of an element of a reply: NULL and out of range are `none`.
abbrev pub text_at : List Reply → ℕ → Option Bytes
text_at rs i = elim (get_elem? rs i) [ none ↦ none | some r ↦ str_of r ]

-- A field that is copied only if the element has a text; the array is zero before.
abbrev pub copy_text : ℕ → Option Bytes → Bytes
copy_text n none = []
copy_text n (some s) = fit n s

-- The value that `redis_exists_key` reads off a reply.
abbrev pub exists_of : Option Reply → ℤ
exists_of none = negsuc 0
exists_of (some r) = if is_pos (integer_of r) then pos 1 else pos 0

module _ {P : Platform} where
  -- `redisCommand(g_redis_ctx, ...)`
  unfoldable pub command : List Bytes → World P → Option Reply × World P
  command words w =
      let (reply, store) = P.redis_command words w.store in (reply, record w { store = store })

  unfoldable pub redis_exists_key : Bytes → World P → ℤ × World P
  redis_exists_key key w =
      let asked = command (exists_words key) w in
      if w.connected then (exists_of (answered asked.0), asked.1) else (negsuc 0, w)

  -- A command whose reply is only tested, and what follows if it is neither NULL nor an error.
  abbrev pub store_then : List Bytes → (World P → ℤ × World P) → World P → ℤ × World P
  store_then words next w =
      let asked = command words w in
      elim (answered asked.0) [ none ↦ (Rc.redis, asked.1) | some r ↦ next asked.1 ]

  abbrev pub finish_ok : World P → ℤ × World P
  finish_ok w = (Rc.ok, w)
