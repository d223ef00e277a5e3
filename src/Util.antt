-- ===== src/Util.antt =====
-- src/SERVER/zt_util.c: building a response, and reading string fields out of a JSON body; with the
-- records of src/SERVER/zt_http.h that they fill.
pub mod Json
pub mod Response
use zam_tok.Prelude.{
  ℕ, ◌+◌, ℤ, pos, negsuc, Bool, true, false, ◌||◌, List, [], ◌∷◌, ◌++◌, Option, none, some, Bytes,
  codes, ◌==◌, ltb, leb, if◌then◌else◌, length, drop, set, replicate,
}
use zam_tok.CString.{fit, strstr, strchr, skip_ws, take_until, decimal}
use zam_tok.Codes.Rc
use zam_tok.Codes.Size
use zam_tok.Codes.{ErrCode, zt_err_code_str, zt_err_default_msg, zt_http_status_to_reason}

-- `header_field_t`
pub record HeaderField : Type 0 where
  pub str_name : Bytes
  pub str_value : Bytes

abbrev pub no_header : HeaderField
no_header = record { str_name = []; str_value = [] }

-- `req_t`, without the two header fields that no code reads or writes
pub record Req : Type 0 where
  pub str_method : Bytes
  pub str_uri : Bytes
  pub str_version : Bytes
  pub t_content_headers : List HeaderField
  pub i_content_header_count : ℕ
  pub str_body : Bytes

-- `res_body_t`
pub record ResBody : Type 0 where
  pub b_success : Bool
  pub str_code : Bytes
  pub str_message : Bytes
  pub str_data : Bytes

-- `res_t`, without the header count, which stays 0
pub record Res : Type 0 where
  pub str_version : Bytes
  pub i_status_code : ℕ
  pub str_reason : Bytes
  pub t_header_fields : List HeaderField
  pub t_body : ResBody

-- `result_kind_t`
pub data ResultKind : Type 0 where
  result_success result_fail : ResultKind

-- `e_kind == RESULT_SUCCESS`
abbrev pub is_success : ResultKind → Bool
is_success result_success = true
is_success result_fail = false

-- `memset(pt_response, 0, sizeof(*pt_response))`
abbrev pub zero_response : Res
zero_response = record {
  str_version = [];
  i_status_code = 0;
  str_reason = [];
  t_header_fields = replicate Size.header_count no_header;
  t_body = record { b_success = false; str_code = []; str_message = []; str_data = [] };
}

-- `alloc` is whether `malloc` succeeds.
unfoldable pub generate_response : Bool → Req → ℕ → Option Res
generate_response alloc t_request i_status_code =
    if ltb i_status_code 100 || ltb 599 i_status_code
    then none
    else if alloc
    then some (record zero_response {
      str_version = fit Size.version t_request.str_version;
      i_status_code = i_status_code;
      str_reason = fit Size.reason (zt_http_status_to_reason i_status_code);
    })
    else none

-- `BODY_FMT` with its four arguments
unfoldable pub body_fmt : Bytes → Bytes → Bytes → Bytes → Bytes
body_fmt ok code message data_json =
    codes "{\"success\":"
    ++ (ok
        ++ (codes ",\"code\":\""
            ++ (code
                ++ (codes "\",\"message\":\""
                    ++ (message ++ (codes "\",\"data\":" ++ (data_json ++ codes "}")))))))

-- `(str_data_json != NULL && str_data_json[0] != '\0') ? str_data_json : "null"`
unfoldable pub data_or_null : Option Bytes → Bytes
data_or_null none = codes "null"
data_or_null (some []) = codes "null"
data_or_null (some (c ∷ s)) = c ∷ s

-- The text that `generate_response_body` prints, before it is cut to the array.
unfoldable pub body_text : ResultKind → ErrCode → Option Bytes → Bytes
unfolding body_fmt data_or_null
body_text e_kind e_err_code str_data_json =
    body_fmt (if is_success e_kind then codes "true" else codes "false")
      (fit Size.code (zt_err_code_str e_err_code))
      (fit Size.message (zt_err_default_msg e_err_code)) (data_or_null str_data_json)

-- The index of `HEADER_TYPE_CONTENT_LENGTH`; the name of that header is left empty.
unfoldable pub set_content_length : ℕ → Res → Res
set_content_length n r = record r {
  t_header_fields =
      set r.t_header_fields 1 (record { str_name = []; str_value = fit Size.value (decimal n) });
}

-- The body is written, cut if need be, before its length is tested. The result is the return code
-- with the response.
unfoldable pub generate_response_body : Res → ResultKind → ErrCode → Option Bytes → ℤ × Res
generate_response_body pt_response e_kind e_err_code str_data_json =
    let text = body_text e_kind e_err_code str_data_json in
    let filled = record pt_response {
      t_body = record {
        b_success = is_success e_kind;
        str_code = fit Size.code (zt_err_code_str e_err_code);
        str_message = fit Size.message (zt_err_default_msg e_err_code);
        str_data = fit Size.body_data text;
      };
    } in
    if leb Size.body_data (length text)
    then (Rc.arg_invalid, filled)
    else (Rc.ok, set_content_length (length text) filled)

-- After the opening quote: the bytes up to the closing quote, which has to be there.
unfoldable pub quoted : Bytes → Option Bytes
quoted s = elim (strchr s b'"') [ none ↦ none | some t ↦ some (take_until (λ c. c == b'"') s) ]

-- From the byte behind the colon: white space, an opening quote, the value.
unfoldable pub value_at : Bytes → Option Bytes
unfolding quoted
value_at s = elim (skip_ws s) [ [] ↦ none | c ∷ t ↦ (if c == b'"' then quoted t else none) ]

-- From the byte behind the key: the next colon, wherever it is.
unfoldable pub after_key : Bytes → Option Bytes
unfolding value_at
after_key s = elim (strchr s b':') [ none ↦ none | some t ↦ value_at (drop 1 t) ]

-- `msg_get_json_string_field_helper`: offset and length are returned as the value itself, and any
-- failure, which has the one code `ZT_RC_ARG_INVALID`, as `none`.
unfoldable pub msg_get_json_string_field_helper : Bytes → Bytes → Option Bytes
unfolding after_key
msg_get_json_string_field_helper str_body str_key = elim (strstr str_body str_key) [
  | none ↦ none
  | some t ↦ after_key (drop (length str_key) t)
]

-- The value if it is not empty and fits with its NUL.
unfoldable pub check_length : ℕ → Bytes → Option Bytes
check_length sz_out v = if length v == 0 || leb sz_out (length v) then none else some v

-- `msg_copy_json_string_field`: `some v` is `ZT_RC_OK` with `v` in the buffer of `sz_out` bytes, and
-- `none` is `ZT_RC_ARG_INVALID` with the buffer left alone.
unfoldable pub msg_copy_json_string_field : Bytes → Bytes → ℕ → Option Bytes
unfolding check_length
msg_copy_json_string_field str_body str_key sz_out =
    if sz_out == 0 then none else elim (msg_get_json_string_field_helper str_body str_key) [
      | none ↦ none
      | some v ↦ check_length sz_out v
    ]

-- `http_json_field_spec_t`; the buffers are the result.
pub record FieldSpec : Type 0 where
  pub str_json_key : Bytes
  pub sz_out : ℕ

-- What `http_bind_json_fields` leaves: its return code, the buffers that it filled, in order (those
-- behind them keep their zeros), and the two variables that it sets on a failure.
pub record Binding : Type 0 where
  pub rc : ℤ
  pub outs : List Bytes
  pub status : ℕ
  pub err_code : ErrCode

-- The loop of `http_bind_json_fields`.
unfoldable pub bind_loop : Bytes → List FieldSpec → List Bytes → ℕ → ErrCode → Binding
bind_loop str_body [] outs status err_code = record {
  rc = pos 0;
  outs = outs;
  status = status;
  err_code = err_code;
}
bind_loop str_body (f ∷ fs) outs status err_code =
    elim (msg_copy_json_string_field str_body f.str_json_key f.sz_out) [
      | none ↦ record {
        rc = negsuc 0;
        outs = outs;
        status = 400;
        err_code = ErrCode.invalid_params;
      }
      | some v ↦ bind_loop str_body fs (outs ++ v ∷ []) status err_code
    ]

unfoldable pub http_bind_json_fields : Bytes → List FieldSpec → ℕ → ErrCode → Binding
unfolding bind_loop
http_bind_json_fields str_body [] status err_code = record {
  rc = Rc.arg_invalid;
  outs = [];
  status = status;
  err_code = err_code;
}
http_bind_json_fields str_body (f ∷ fs) status err_code =
    bind_loop str_body (f ∷ fs) [] status err_code
