-- ===== src/Hdl/Header.antt =====
-- `hdl_header_mime` and `hdl_header` of src/SERVER/zt_hdl.c.
pub mod Ends
use zam_tok.Prelude.{
  ℕ, ◌+◌, zero, suc, ◌-◌, ◌*◌, ◌≤◌, ◌<◌, ℤ, pos, negsuc, is_neg, is_pos, is_nat, Bool, true, false,
  not, ◌&&◌, ◌||◌, List, [], ◌∷◌, ◌++◌, Option, none, some, Bytes, codes, ◌≡◌, ◌≢◌, ◌↔◌, ◌⊎◌, inl,
  inr, refl, sym, ap, ◌∙◌, subst, arith, ◌==◌, ltb, leb, if◌then◌else◌, Bool-cases, Option-cases,
  length, take, drop, get_or, set, append_assoc, append-nil, length-append, All,
}
use zam_tok.CString.{str_eq, strn_eq, fit, strrchr, strtok, one_of, decimal}
use zam_tok.Codes.Rc
use zam_tok.Codes.Size
use zam_tok.Codes.{zt_http_status_to_reason}
use zam_tok.Util.{HeaderField, no_header, Req}
use zam_tok.Outcome.{Outcome, returns, out_of_fuel, and_then}

-- The type that `hdl_header_mime` prints for what `strrchr(uri, '.')` returns.
unfoldable pub mime_of : Option Bytes → Bytes
mime_of none = codes "application/json"
mime_of (some ext) =
    if str_eq ext (codes ".html")
    then codes "text/html"
    else if str_eq ext (codes ".jpg") || str_eq ext (codes ".jpeg")
    then codes "image/jpeg"
    else if str_eq ext (codes ".png")
    then codes "image/png"
    else if str_eq ext (codes ".CSS")
    then codes "text/CSS"
    else if str_eq ext (codes ".js")
    then codes "text/javascript"
    else codes "text/plain"

-- The return code and what stands in `content_type`; neither pointer is NULL.
unfoldable pub hdl_header_mime : ℕ → Bytes → ℤ × Bytes
unfolding mime_of strrchr fit
hdl_header_mime size uri = (Rc.ok, fit size (mime_of (strrchr uri b'.')))

-- `strtok(text, " ")`: the value, "" for NULL, and where the next call of `strtok` goes on.
unfoldable pub value_token : Bytes → Bytes × Bytes
unfolding strtok one_of
value_token text = elim (strtok (one_of (codes " ")) text) [ none ↦ ([], []) | some p ↦ p ]

-- `strtok(NULL, "\r\n")`
unfoldable pub next_line : Bytes → Option (Bytes × Bytes)
unfolding strtok one_of
next_line saved = strtok (one_of (codes "\r\n")) saved

-- The fields with the one at the index set.
unfoldable pub put_header : List HeaderField → ℕ → Bytes → Bytes → List HeaderField
unfolding fit
put_header hs i name value =
    set hs i (record { str_name = fit Size.header_name name; str_value = fit Size.value value })

-- The loop over the lines. A field's value is taken off its line by `strtok` too, so the next call
-- goes on behind that value, within the line.
unfoldable pub header_loop :
    ℕ → Option (Bytes × Bytes) → List HeaderField → ℕ → Outcome (List HeaderField × ℕ)
unfolding strn_eq value_token next_line put_header
header_loop fuel none hs i = returns (hs, i)
header_loop zero (some p) hs i = out_of_fuel
header_loop (suc fuel) (some (line, saved)) hs i = elim (ltb i Size.header_count) [
  | false ↦ returns (hs, i)
  | true ↦ elim (strn_eq 13 line (codes "Content-Type:")) [
    | true ↦
        let value = value_token (drop 13 line) in
        header_loop fuel (next_line value.1) (put_header hs i (codes "Content-Type") value.0)
          (i + 1)
    | false ↦ elim (strn_eq 15 line (codes "Content-Length:")) [
      | true ↦
          let value = value_token (drop 15 line) in
          header_loop fuel (next_line value.1) (put_header hs i (codes "Content-Length") value.0)
            (i + 1)
      | false ↦ header_loop fuel (next_line saved) hs i
    ]
  ]
]

-- `HEADER_FMT` with its five arguments
unfoldable pub header_text : Bytes → ℕ → Bytes → Bytes → Bytes
header_text version status clen ctype = fit Size.header (
    codes "HTTP/"
    ++ (take 15 version
        ++ (codes " "
            ++ (decimal status
                ++ (codes " "
                    ++ (take 63 (zt_http_status_to_reason status)
                        ++ (codes "\r\nContent-Length: "
                            ++ (take 31 clen
                                ++ (codes "\r\nContent-Type: "
                                    ++ (take 63 ctype ++ codes "\r\n\r\n"))))))))))

-- The value of the field at the index, if there are so many.
abbrev pub value_or : List HeaderField → ℕ → ℕ → Bytes → Bytes
value_or hs count i default = if ltb i count then (get_or hs i no_header).str_value else default

-- What is left in `header_buf`, and the request, once the lines are read.
unfoldable pub header_done : ℕ → Req → List HeaderField × ℕ → (ℤ × Bytes) × Req
header_done status msg (hs, count) = (
  (
    Rc.ok,
    header_text msg.str_version status (value_or hs count 1 (codes "0"))
        (value_or hs count 0 (codes "text/plain")),
  ),
  record msg { t_content_headers = hs; i_content_header_count = count },
)

-- The loop runs at most once for each byte of the buffer.
unfoldable pub hdl_header : Bytes → ℕ → Req → Outcome ((ℤ × Bytes) × Req)
hdl_header request_buf status msg =
    if ltb status 100
    then returns ((Rc.arg_invalid, []), msg)
    else and_then
        (header_loop (suc (length request_buf)) (next_line request_buf) msg.t_content_headers 0)
        (λ out. returns (header_done status msg out))
