-- ===== src/Http/Respond/Sent.antt =====
-- The code behind `next` answers each request exactly once.
use zam_tok.Prelude.{
  ℕ, ◌≤◌, ◌<◌, ℤ, is_neg, true, false, [], ◌∷◌, ◌++◌, Option, none, some, Bytes, ◌≡◌, ◌∙◌, arith,
  length, length-append, codes, append_assoc,
}
use zam_tok.CString.{fit, decimal}
use zam_tok.CString.Search.{Free}
use zam_tok.CString.Format.{length-fit, Free-fit, fit-fits}
use zam_tok.Codes.Rc
use zam_tok.Codes.Size
use zam_tok.Codes.{ErrCode, zt_http_status_to_reason}
use zam_tok.Util.{
  Req, Res, ResultKind, body_text, generate_response, generate_response_body, zero_response,
  set_content_length, result_success, result_fail,
}
use zam_tok.Util.Response.{length-decimal}
use zam_tok.Step.{Result, ok, fail}
use zam_tok.World.{Platform, World}
use zam_tok.Socket.{socket_send, write_all}
use zam_tok.Hdl.Send.{wire_text, hdl_send_http_json}
use zam_tok.Http.Respond.{send_response, respond}
use zam_tok.Http.Helpers.{http_get_body}
use zam_tok.Http.Body.{http_get_body-wire_text}

reason-plain : (n : ℕ) → Free b'\r' (zt_http_status_to_reason n)
unfolding zt_http_status_to_reason
reason-plain n = ground arith

-- A response that `generate_response` has begun.
record IsBegun (r : Res) : Type 0 where
  status_small : r.i_status_code < 1024
  reason_plain : Free b'\r' r.str_reason
  reason_short : length r.str_reason < 64
  data_short : length r.t_body.str_data < 1024

length-wire_text : (r : Res) → IsBegun r → length (wire_text r) < Size.wire
unfolding wire_text
length-wire_text r h = omega (
  arith,
  length-append {0} (decimal r.i_status_code),
  length-append {0} r.str_reason,
  length-append {0} (decimal (length r.t_body.str_data)),
  length-decimal r.i_status_code h.status_small,
  length-decimal (length r.t_body.str_data) h.data_short,
)

module _ {P : Platform} where
  -- On an open socket a message that fits is handed to `write` once, and the code is `ZT_RC_OK`,
  -- whatever `write` returns.
  pub hdl_send_http_json_lem :
      (fd : ℤ) (r : Res) (w : World P)
      → is_neg fd ≡ false
      → length (wire_text r) < Size.wire
      → hdl_send_http_json fd r w ≡ (Rc.ok, record w { sent = w.sent ++ (fd, wire_text r) ∷ [] })
  unfolding hdl_send_http_json socket_send write_all wire_text
  hdl_send_http_json_lem fd r w up fits = ground arith

abbrev pub filled : Res → ResultKind → ErrCode → Option Bytes → Res
filled r k e d = (generate_response_body r k e d).1

filled_data :
    (r : Res) (k : ResultKind) (e : ErrCode) (d : Option Bytes)
    → ((filled r k e d).t_body.str_data ≡ fit Size.body_data (body_text k e d))
      × ((filled r k e d).i_status_code ≡ r.i_status_code)
      × ((filled r k e d).str_reason ≡ r.str_reason)
unfolding generate_response_body set_content_length
filled_data r k e d = ground arith

begun : Req → ℕ → Res
begun q n = record zero_response {
  str_version = fit Size.version q.str_version;
  i_status_code = n;
  str_reason = fit Size.reason (zt_http_status_to_reason n);
}

generate_response-begun :
    (q : Req) (n : ℕ) → 100 ≤ n → n ≤ 599 → generate_response true q n ≡ some (begun q n)
unfolding generate_response begun
generate_response-begun q n h k = ground arith

filled-IsBegun :
    (q : Req) (n : ℕ) (k : ResultKind) (e : ErrCode) (d : Option Bytes)
    → n ≤ 599
    → IsBegun (filled (begun q n) k e d)
unfolding begun
filled-IsBegun q n k e d h =
    let parts = filled_data (begun q n) k e d in
    record {
      status_small = rw parts.1 (omega arith);
      reason_plain = rw parts.2 (Free-fit b'\r' Size.reason _ (reason-plain n));
      reason_short = rw parts.2 (length-fit Size.reason _ (omega arith));
      data_short = rw parts.0 (length-fit Size.body_data _ (omega arith));
    }

-- What a message begins with that answers with a status.
abbrev pub status_line : ℕ → Bytes
status_line n = codes "HTTP/1.1 " ++ (decimal n ++ (codes " " ++ zt_http_status_to_reason n))

-- What follows it.
abbrev pub headers_text : Res → Bytes
headers_text r =
    codes "\r\nContent-Type: application/json\r\nContent-Length: "
    ++ (decimal (length r.t_body.str_data) ++ (codes "\r\n\r\n" ++ r.t_body.str_data))

status_line-wire_text :
    (r : Res) (n : ℕ)
    → r.i_status_code ≡ n
    → r.str_reason ≡ zt_http_status_to_reason n
    → wire_text r ≡ status_line n ++ headers_text r
unfolding wire_text
status_line-wire_text r n h k = rw (h, k, append_assoc (decimal n))

reason-length : (n : ℕ) → length (zt_http_status_to_reason n) < 64
unfolding zt_http_status_to_reason
reason-length n = ground arith

begun-reason : (q : Req) (n : ℕ) → (begun q n).str_reason ≡ zt_http_status_to_reason n
unfolding begun
begun-reason q n = fit-fits Size.reason (zt_http_status_to_reason n) (reason-length n)

-- One message is handed to `write`: it begins with the status and its reason, and its body is the text
-- of the result, cut to 1023 bytes.
pub record Answers {P : Platform} (socket : ℤ) (n : ℕ) (text : Bytes) (w : World P)
    (out : ℤ × World P) : Type 0 where
  pub message : Bytes
  pub code_ok : out.0 ≡ Rc.ok
  pub sent_once : out.1 ≡ record w { sent = w.sent ++ (socket, message) ∷ [] }
  pub headers : Bytes
  pub status_is : message ≡ status_line n ++ headers
  pub body_is : http_get_body message ≡ fit Size.body_data text

module _ {P : Platform} (room : P.malloc ≡ true) (socket : ℤ) (open_ : is_neg socket ≡ false)
    (q : Req) where
  pub send_response-Answers :
      (n : ℕ) (k : ResultKind) (e : ErrCode) (d : Option Bytes) (w : World P)
      → 100 ≤ n
      → n ≤ 599
      → Answers socket n (body_text k e d) w (send_response socket q n k e d w)
  unfolding send_response begun
  send_response-Answers n k e d w lo hi =
      let r = filled (begun q n) k e d in
      let ready = filled-IsBegun q n k e d hi in
      let parts = filled_data (begun q n) k e d in
      let sent = hdl_send_http_json_lem socket r w open_ (length-wire_text r ready) in
      let begins : generate_response P.malloc q n ≡ some (begun q n) =
        rw room (generate_response-begun q n lo hi) in
      record {
        message = wire_text r;
        code_ok = rw (begins, send_response) (rw sent);
        sent_once = rw (begins, send_response) (rw sent);
        headers = headers_text r;
        status_is = status_line-wire_text r n (parts.1) (parts.2 ∙ begun-reason q n);
        body_is = http_get_body-wire_text r ready.reason_plain ∙ parts.0;
      }

-- What the response to a result says, its status, and that it is one that HTTP knows.
abbrev pub result_status : Result (Option Bytes) → ℕ
result_status (ok d) = 200
result_status (fail n e) = n

abbrev pub result_text : Result (Option Bytes) → Bytes
result_text (ok d) = body_text result_success ErrCode.success d
result_text (fail n e) = body_text result_fail e none

abbrev pub InRange : {A : Type 0} → Result A → Type 0
InRange (ok a) = Unit
InRange (fail n e) = (100 ≤ n) × (n ≤ 599)

module _ {P : Platform} (room : P.malloc ≡ true) (socket : ℤ) (open_ : is_neg socket ≡ false)
    (q : Req) where
  -- Where `malloc` succeeds and the socket is open, a result whose status lies between 100 and 599 is
  -- answered by one message, which begins with the status and its reason, and whose body is the text of the
  -- result, cut to 1023 bytes.
  pub respond-Answers :
      (r : Result (Option Bytes)) (w : World P)
      → InRange r
      → Answers socket (result_status r) (result_text r) w (respond socket q (r, w))
  unfolding respond
  respond-Answers (ok d) w h =
      send_response-Answers room socket open_ q 200 result_success ErrCode.success d w (omega arith)
        (omega arith)
  respond-Answers (fail n e) w h =
      send_response-Answers room socket open_ q n result_fail e none w h.0 h.1
