-- ===== src/Http/Lists/Friends.antt =====
-- `http_list_friends` answers a request by exactly one message.
use zam_tok.Prelude.{ℤ, is_neg, true, false, Bytes, codes, ◌≡◌, inl, inr, arith, Option-cases}
use zam_tok.Codes.Size
use zam_tok.Util.{Req}
use zam_tok.World.{Platform, World}
use zam_tok.Redis.Users.{redis_user_exists}
use zam_tok.Http.Helpers.{http_query_value}
use zam_tok.Redis.Issued.{Invariant, no_invariant, redis_user_exists-Keeps, friend_list-Keeps}
use zam_tok.Http.Quiet.{IsProper}
use zam_tok.Http.Answers.{AnswersOnce, respond-AnswersOnce}
use zam_tok.Http.Lists.{list_friends, list_friends_steps, http_list_friends}

module _ {P : Platform} (I : Invariant P) where
  list_friends-IsProper : (id : Bytes) → IsProper I (list_friends id)
  unfolding list_friends
  list_friends-IsProper id w =
      let w1 = (redis_user_exists id w).1 in
      ground (arith, redis_user_exists-Keeps I id w, friend_list-Keeps I id Size.friend_count w1)

  pub list_friends_steps-IsProper : (q : Req) → IsProper I (list_friends_steps q)
  unfolding list_friends_steps
  list_friends_steps-IsProper q w =
      elim (Option-cases (http_query_value q.str_uri (codes "user_id") Size.user_id)) [
        | inl e ↦ ground arith
        | inr (id, e) ↦ ground (arith, list_friends-IsProper id w)
      ]

-- Where `malloc` succeeds, `http_list_friends` answers a request on an open socket with exactly one
-- message, whatever `write` and Redis answer: it begins with the status of the result of its steps, its
-- body is the text of that result, cut to 1023 bytes, and the database is as the steps left it.
pub http_list_friends-AnswersOnce :
    {P : Platform} (q : Req) (socket : ℤ) (buf : Bytes) (w : World P)
    → P.malloc ≡ true
    → is_neg socket ≡ false
    → AnswersOnce socket (list_friends_steps q) w (http_list_friends socket buf q w)
unfolding http_list_friends
http_list_friends-AnswersOnce {P = P} q socket buf w room up = rw up (
    respond-AnswersOnce room socket up q (list_friends_steps q) w
      (list_friends_steps-IsProper (no_invariant P) q))
