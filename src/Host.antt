-- ===== src/Host.antt =====
-- The functions of src/CLIENT/zt_hdl.c that serve clients, which the client carries along from the server and
-- does not call: `EventLoop` runs with `is_client` set. A NULL pointer that is read, and a write out of
-- bounds, come to `overruns`.
pub mod Ctx
pub mod Requests
pub mod Handled
use zam_tok.Prelude.{
  ℕ, ◌+◌, zero, suc, ◌-◌, ◌*◌, ◌≤◌, ◌<◌, ℤ, pos, negsuc, is_neg, is_pos, is_nat, Bool, true, false,
  not, ◌&&◌, ◌||◌, List, [], ◌∷◌, ◌++◌, Option, none, some, Bytes, codes, ◌≡◌, ◌≢◌, ◌↔◌, ◌⊎◌, inl,
  inr, refl, sym, ap, ◌∙◌, subst, arith, ◌==◌, ltb, leb, if◌then◌else◌, Bool-cases, Option-cases,
  length, take, drop, get_or, set, append_assoc, append-nil, length-append, All, replicate,
  List-cases,
}
use zam_tok.CString.{str_eq, strn_eq, fit, strrchr, strtok, one_of, take_until, decimal}
use zam_tok.Codes.Rc
use zam_tok.Codes.Size
use zam_tok.Outcome.{Outcome, returns, out_of_fuel, overruns, and_then}
use zam_tok.Ctx.{Calls}
use zam_tok.Hdl.Header.{next_line}
use zam_tok.Hdl.Request.{Read, received, again, broken, request_line}
use zam_tok.Host.Ctx.{HeaderType, ReqType, no_type, zero_msg, ZtCtx, max_hosted, insert_hosted}

-- What `HDL_400` and `HDL_500` write; their results are only logged.
abbrev pub text_400 : Bytes
text_400 = codes "HTTP/1.1 400 Bad Request\r\nContent-Length: 0\r\nConnection: close\r\n\r\n"

abbrev pub text_500 : Bytes
text_500 =
    codes "HTTP/1.1 500 Internal Server Error\r\nContent-Length: 0\r\nConnection: close\r\n\r\n"

-- What `HDL_HEADER_MIME` prints for an extension.
unfoldable pub type_of_ext : Bytes → Bytes
type_of_ext p_ext =
    if str_eq p_ext (codes ".html")
    then codes "text/html"
    else if str_eq p_ext (codes ".jpg") || str_eq p_ext (codes ".jpeg")
    then codes "image/jpeg"
    else if str_eq p_ext (codes ".png")
    then codes "image/png"
    else if str_eq p_ext (codes ".CSS")
    then codes "text/CSS"
    else if str_eq p_ext (codes ".js")
    then codes "text/javascript"
    else codes "text/plain"

-- `HDL_HEADER_MIME`: `strcmp` is handed the NULL that `strrchr` returns for a URI without a dot.
unfoldable pub header_mime : ℕ → Bytes → Outcome (ℤ × Bytes)
unfolding type_of_ext strrchr fit
header_mime size p_uri = elim (strrchr p_uri b'.') [
  | none ↦ overruns
  | some p_ext ↦ returns (Rc.ok, fit size (type_of_ext p_ext))
]

-- The header with a name and a value at the index; both are cut to `NAME_MAX_LEN`.
unfoldable pub put_type : List HeaderType → ℕ → Bytes → Bytes → List HeaderType
unfolding fit
put_type hs i name value =
    set hs i (record { name = fit Size.header_name name; value = fit Size.header_name value })

-- The loop over the lines: the count stays 0, so each field overwrites the last. A field without a value
-- has NULL printed by `%s`.
unfoldable pub line_loop : ℕ → Option (Bytes × Bytes) → List HeaderType → Outcome (List HeaderType)
unfolding strn_eq strtok one_of next_line put_type
line_loop fuel none hs = returns hs
line_loop zero (some p) hs = out_of_fuel
line_loop (suc fuel) (some (line, saved)) hs = elim (strn_eq 13 line (codes "Content-Type:")) [
  | true ↦ elim (strtok (one_of (codes " ")) (drop 13 line)) [
    | none ↦ overruns
    | some (temp, rest) ↦
        line_loop fuel (next_line rest) (put_type hs 0 (codes "Content-Type") temp)
  ]
  | false ↦ elim (strn_eq 15 line (codes "Content-Length:")) [
    | true ↦ elim (strtok (one_of (codes " ")) (drop 15 line)) [
      | none ↦ overruns
      | some (temp, rest) ↦
          line_loop fuel (next_line rest) (put_type hs 0 (codes "Content-Length") temp)
    ]
    | false ↦ line_loop fuel (next_line saved) hs
  ]
]

-- `status_msg`
unfoldable pub status_text : ℕ → Bytes
status_text status =
    if status == 200
    then codes "OK"
    else if status == 400
    then codes "Not Found"
    else codes "Internal Server Error"

-- `HEADER_FMT` with its five arguments
unfoldable pub host_header_text : Bytes → ℕ → Bytes → Bytes → Bytes → Bytes
host_header_text version status reason first second = fit Size.header (
    codes "HTTP/"
    ++ (take 15 version
        ++ (codes " "
            ++ (decimal status
                ++ (codes " "
                    ++ (take 63 reason
                        ++ (codes "\r\nContent-Length: "
                            ++ (take 63 first
                                ++ (codes "\r\nContent-Type: "
                                    ++ (take 63 second ++ codes "\r\n\r\n"))))))))))

-- Behind the loop: the text in `p_header`, and the request.
unfoldable pub host_header_done : ℕ → ReqType → List HeaderType → (ℤ × Bytes) × ReqType
unfolding status_text host_header_text
host_header_done status t_msg hs = (
  (
    Rc.ok,
    host_header_text t_msg.version status (status_text status) (get_or hs 0 no_type).value
        (get_or hs 1 no_type).value,
  ),
  record t_msg { t_content_header = hs; content_cnt = 0 },
)

-- `HDL_HEADER`: the loop runs at most once for each byte of the buffer.
unfoldable pub host_header : Bytes → ℕ → ReqType → Outcome ((ℤ × Bytes) × ReqType)
unfolding line_loop next_line host_header_done
host_header p_buf status t_msg =
    if ltb status 100
    then returns ((Rc.arg_invalid, []), t_msg)
    else and_then (line_loop (suc (length p_buf)) (next_line p_buf) t_msg.t_content_header)
        (λ hs. returns (host_header_done status t_msg hs))

-- The request line, and "/" for "/indx.html".
unfoldable pub start_line : ReqType → Bytes × Bytes × Bytes → ReqType
unfolding fit str_eq
start_line t_msg (method, uri, version) = record t_msg {
  method = fit Size.method method;
  uri = (if str_eq (fit Size.uri uri) (codes "/") then codes "/indx.html" else fit Size.uri uri);
  version = fit Size.version version;
}

-- What a request with a request line comes to: the request behind it.
unfoldable pub host_request : Bytes → ReqType → Outcome (ℤ × ReqType)
unfolding header_mime host_header
host_request buf t_msg = and_then (header_mime Size.value t_msg.uri) (λ typed.
    let first = get_or t_msg.t_content_header t_msg.content_cnt no_type in
    let hs = set t_msg.t_content_header t_msg.content_cnt (record first { value = typed.1 }) in
    let status : ℕ = if is_nat typed.0 0 then 200 else 400 in
    and_then (host_header buf status (record t_msg { t_content_header = hs }))
      (λ out. returns (out.0.0, out.1)))

-- The loop of `HDL_SOCKET`: its code, and what is written to the socket. The second argument is how many
-- of the `RETRY_MAX_CNT` attempts are left, which a request that is read does not use up; the NUL goes to
-- `buf[n]`, for the n that `read` returned, be it -1 or the size of the array.
unfoldable pub host_loop : ℕ → ℕ → ℕ → (ℕ → Read) → ReqType → Outcome (ℤ × List Bytes)
unfolding take_until fit request_line start_line host_request
host_loop fuel zero i read t_msg = returns (Rc.ok, [])
host_loop zero (suc left) i read t_msg = out_of_fuel
host_loop (suc fuel) (suc left) i read t_msg = elim (read i) [
  | again ↦ host_loop fuel left (i + 1) read t_msg
  | broken ↦ overruns
  | received bytes ↦ elim (leb 1024 (length bytes)) [
    | true ↦ overruns
    | false ↦
        let buf = take_until (λ c. c == 0) bytes in
        elim (request_line (fit 1024 buf)) [
          | none ↦ returns (Rc.arg_invalid, text_400 ∷ [])
          | some line ↦ elim (host_request buf (start_line t_msg line)) [
            | out_of_fuel ↦ out_of_fuel
            | overruns ↦ overruns
            | returns (rc, t_msg') ↦ elim (is_nat rc 0) [
              | false ↦ returns (Rc.socket, [])
              | true ↦ host_loop fuel (suc left) (i + 1) read t_msg'
            ]
          ]
        ]
  ]
]

-- `HDL_SOCKET`
unfoldable pub host_socket : ℕ → ℤ → ℤ → (ℕ → Read) → Outcome (ℤ × List Bytes)
unfolding host_loop
host_socket fuel epfd socket read =
    if is_neg epfd
    then returns (Rc.arg_invalid, [])
    else if is_neg socket
    then returns (Rc.arg_invalid, [])
    else host_loop fuel 3 0 read zero_msg

-- The bits of the client's `g_client_fd`, of 64 / 8 bytes.
abbrev pub hosted_bits : ℕ
hosted_bits = 64

-- `g_client_fd[client_fd/8] |= 1 << client_fd % 8`; a descriptor is not negative here.
unfoldable pub host_bit : ℤ → List Bool → Outcome (List Bool)
host_bit (pos n) bits = if leb hosted_bits n then overruns else returns (set bits n true)
host_bit (negsuc n) bits = overruns

-- `HDL_ACCEPT`, by what `accept` returns: its code, the connections and the bits. A client that is not
-- inserted is not closed.
unfoldable pub host_accept : ℤ → Bytes → Calls → ZtCtx → List Bool → Outcome (ℤ × ZtCtx × List Bool)
unfolding insert_hosted host_bit
host_accept client_fd addr calls ctx bits =
    let inserted = insert_hosted calls ctx client_fd addr in
    if is_neg client_fd
    then returns (Rc.socket, ctx, bits)
    else if not (is_nat inserted.0 0)
    then returns (Rc.ctx, inserted.1, bits)
    else and_then (host_bit client_fd bits) (λ bits'. returns (Rc.ok, inserted.1, bits'))
