-- ===== src/Http/Respond.antt =====
-- What the handlers of src/SERVER/zt_http.c share: reading the JSON fields, and the code behind `next`.
pub mod Sent
use zam_tok.Prelude.{ℕ, ℤ, is_neg, List, Bytes, Option, none, some, if◌then◌else◌}
use zam_tok.Codes.Rc
use zam_tok.Codes.{ErrCode}
use zam_tok.Util.{
  Req, FieldSpec, ResultKind, result_success, result_fail, generate_response,
  generate_response_body, http_bind_json_fields,
}
use zam_tok.Step.{Result, ok, fail, Step}
use zam_tok.World.{Platform, World}
use zam_tok.Hdl.Send.{hdl_send_http_json}

-- `if (http_bind_json_fields(...) < 0) goto next;` on a status and an error code that the handler
-- has initialised to `HTTP_OK` and `ZT_ERR_INVALID_PARAMS`.
unfoldable pub bind_fields : {S : Type 0} → Bytes → List FieldSpec → Step S (List Bytes)
bind_fields body specs s =
    let b = http_bind_json_fields body specs 200 ErrCode.invalid_params in
    if is_neg b.rc then (fail b.status b.err_code, s) else (ok b.outs, s)

module _ {P : Platform} where
  unfoldable pub send_response :
      ℤ → Req → ℕ → ResultKind → ErrCode → Option Bytes → World P → ℤ × World P
  send_response socket t_request status e_result err_code data_json w =
      elim (generate_response P.malloc t_request status) [
        | none ↦ (Rc.redis, w)
        | some pt_response ↦
            let filled = (generate_response_body pt_response e_result err_code data_json).1 in
            let sent = hdl_send_http_json socket filled w in
            (if is_neg sent.0 then Rc.socket else Rc.ok, sent.1)
      ]

  -- The end of a handler: a step that came through holds the data of the response.
  unfoldable pub respond : ℤ → Req → Result (Option Bytes) × World P → ℤ × World P
  respond socket t_request (ok data_json, w) =
      send_response socket t_request 200 result_success ErrCode.success data_json w
  respond socket t_request (fail status err_code, w) =
      send_response socket t_request status result_fail err_code none w
