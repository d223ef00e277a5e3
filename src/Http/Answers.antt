-- ===== src/Http/Answers.antt =====
-- Each handler of src/SERVER/zt_http.c answers a request by exactly one message.
use zam_tok.Prelude.{ℤ, is_neg, true, false, List, [], ◌∷◌, ◌++◌, Option, Bytes, ◌≡◌, ap, ◌∙◌}
use zam_tok.CString.{fit}
use zam_tok.Codes.Rc
use zam_tok.Codes.Size
use zam_tok.Util.{Req}
use zam_tok.Step.{Step}
use zam_tok.World.{Platform, World}
use zam_tok.Http.Helpers.{http_get_body}
use zam_tok.Http.Respond.{respond}
use zam_tok.Http.Respond.Sent.{result_text, respond-Answers, status_line, result_status, InRange}
use zam_tok.Http.Quiet.{
  IsProper, join_steps-IsProper, login_steps-IsProper, create_room_steps-IsProper,
  search_room_steps-IsProper, join_room_steps-IsProper, invite_room_steps-IsProper,
}
use zam_tok.Redis.Issued.{no_invariant, Same}
use zam_tok.Http.Users.{join_steps, login_steps, http_join, http_login}
use zam_tok.Http.Rooms.{
  create_room_steps, search_room_steps, join_room_steps, invite_room_steps, http_create_room,
  http_search_room, http_join_room, http_invite_room,
}

-- Exactly one message is sent, with the status and the text of the result of the steps, the text cut
-- to 1023 bytes; the database is as the steps left it; the handler returns `ZT_RC_OK`.
pub record AnswersOnce {P : Platform} (socket : ℤ) (m : Step (World P) (Option Bytes)) (w : World P)
    (out : ℤ × World P) : Type 0 where
  pub message : Bytes
  pub code_ok : out.0 ≡ Rc.ok
  pub sent_once : out.1.sent ≡ w.sent ++ (socket, message) ∷ []
  pub store_is : out.1.store ≡ (m w).1.store
  pub headers : Bytes
  pub status_is : message ≡ status_line (result_status (m w).0) ++ headers
  pub body_is : http_get_body message ≡ fit Size.body_data (result_text (m w).0)

module _ {P : Platform} (room : P.malloc ≡ true) (socket : ℤ) (up : is_neg socket ≡ false)
    (q : Req) where
  pub proper-AnswersOnce :
      (m : Step (World P) (Option Bytes)) (w : World P)
      → InRange (m w).0 × Same (no_invariant P) w (m w).1
      → AnswersOnce socket m w (respond socket q (m w))
  proper-AnswersOnce m w h =
      let a = respond-Answers room socket up q (m w).0 (m w).1 h.0 in
      record {
        message = a.message;
        code_ok = a.code_ok;
        sent_once =
            ap (λ (v : World P). v.sent) a.sent_once
            ∙ ap (λ (l : List (ℤ × Bytes)). l ++ (socket, a.message) ∷ []) h.1.same_sent;
        store_is = ap (λ (v : World P). v.store) a.sent_once;
        headers = a.headers;
        status_is = a.status_is;
        body_is = a.body_is;
      }

  pub respond-AnswersOnce :
      (m : Step (World P) (Option Bytes)) (w : World P)
      → IsProper (no_invariant P) m
      → AnswersOnce socket m w (respond socket q (m w))
  respond-AnswersOnce m w h = proper-AnswersOnce m w (h w)

  -- Where `malloc` succeeds, each of the six handlers answers a request on an open socket with exactly
  -- one message, whatever `write` and Redis answer: it begins with the status of the result of the
  -- handler's steps, its body is the text of that result, cut to 1023 bytes, and the database is as the handler's steps left it.
  pub handlers-AnswersOnce :
      (buf : Bytes) (w : World P)
      → AnswersOnce socket (join_steps buf q) w (http_join socket buf q w)
        × AnswersOnce socket (login_steps buf q) w (http_login socket buf q w)
        × AnswersOnce socket (create_room_steps buf q) w (http_create_room socket buf q w)
        × AnswersOnce socket (search_room_steps q) w (http_search_room socket buf q w)
        × AnswersOnce socket (join_room_steps buf q) w (http_join_room socket buf q w)
        × AnswersOnce socket (invite_room_steps buf q) w (http_invite_room socket buf q w)
  unfolding http_join http_login http_create_room http_search_room http_join_room http_invite_room
  handlers-AnswersOnce buf w = (
    rw up (respond-AnswersOnce (join_steps buf q) w (join_steps-IsProper (no_invariant P) buf q)),
    rw up (respond-AnswersOnce (login_steps buf q) w (login_steps-IsProper (no_invariant P) buf q)),
    rw up (
        respond-AnswersOnce (create_room_steps buf q) w
          (create_room_steps-IsProper (no_invariant P) buf q)),
    rw up (
        respond-AnswersOnce (search_room_steps q) w
          (search_room_steps-IsProper (no_invariant P) q)),
    rw up (
        respond-AnswersOnce (join_room_steps buf q) w
          (join_room_steps-IsProper (no_invariant P) buf q)),
    rw up (
        respond-AnswersOnce (invite_room_steps buf q) w
          (invite_room_steps-IsProper (no_invariant P) buf q)),
  )
