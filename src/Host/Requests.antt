-- ===== src/Host/Requests.antt =====
-- What one request comes to in `HDL_SOCKET` of src/CLIENT/zt_hdl.c.
use zam_tok.Prelude.{
  ℕ, zero, suc, ◌≤◌, is_nat, true, false, List, [], Option, none, some, Bytes, codes, ◌≡◌, ◌⊎◌, inl,
  inr, refl, subst, arith, ◌==◌, ltb, if◌then◌else◌, Bool-cases, length, drop, All,
}
use zam_tok.CString.{strrchr, str_eq, fit, strtok, strn_eq, one_of, take_until, tokens}
use zam_tok.CString.Tokens.{then_tokens, tokens-strtok}
use zam_tok.Codes.Rc
use zam_tok.Codes.Size
use zam_tok.Outcome.{Returns, Returns-and_then}
use zam_tok.Hdl.Header.{next_line}
use zam_tok.Hdl.Header.Ends.{Shorter, Shorter-mono, next_line-Shorter}
use zam_tok.Hdl.Request.{request_line}
use zam_tok.Host.Ctx.{HeaderType, ReqType}
use zam_tok.Host.{header_mime, line_loop, host_header_done, host_header, start_line, host_request}

-- A word, with nothing behind it.
abbrev pub IsWord : Bytes → Type 0
IsWord s = (v : Bytes) × (strtok (one_of (codes " ")) s ≡ some (v, []))

-- If the line is that of a content field, its value is one word.
abbrev pub IsFine : Bytes → Type 0
IsFine line =
    (strn_eq 13 line (codes "Content-Type:") ≡ true → IsWord (drop 13 line))
    × (strn_eq 15 line (codes "Content-Length:") ≡ true → IsWord (drop 15 line))

-- The URI is "/", or has a dot.
abbrev pub IsDotted : Bytes → Type 0
IsDotted uri = (uri ≡ codes "/") ⊎ ((ext : Bytes) × (strrchr (fit Size.uri uri) b'.' ≡ some ext))

-- A text without a request line, or with a URI and lines that `HDL_SOCKET` can work on.
abbrev pub HasGoodLines : Bytes → Option (Bytes × Bytes × Bytes) → Type 0
HasGoodLines buf none = Unit
HasGoodLines buf (some (method, uri, version)) =
    IsDotted uri × All IsFine (tokens (one_of (codes "\r\n")) buf)

-- The text in the buffer, and its request line.
abbrev pub text_of : Bytes → Bytes
text_of bytes = take_until (λ c. c == 0) bytes

abbrev pub line_of : Bytes → Option (Bytes × Bytes × Bytes)
line_of bytes = request_line (fit 1024 (text_of bytes))

line_loop-Returns :
    (fuel : ℕ) (o : Option (Bytes × Bytes)) (hs : List HeaderType)
    → Shorter o fuel
    → All IsFine (then_tokens (one_of (codes "\r\n")) o)
    → Returns (line_loop fuel o hs) (λ hs'. Unit {0})
unfolding line_loop next_line strtok
line_loop-Returns fuel none hs h fine = tt
line_loop-Returns zero (some (line, saved)) hs h fine = absurd (omega arith)
line_loop-Returns (suc fuel) (some (line, saved)) hs h ((typed, sized), fine) =
    elim (Bool-cases (strn_eq 13 line (codes "Content-Type:"))) [
      | inl e ↦ let (v, word) = typed e in rw (e, Returns) (rw word tt)
      | inr e ↦ elim (Bool-cases (strn_eq 15 line (codes "Content-Length:"))) [
        | inl e' ↦ let (v, word) = sized e' in rw (e, Returns) (rw (e', Returns) (rw word tt))
        | inr e' ↦
            rw (e, Returns)
              (rw (e', Returns)
                (line_loop-Returns fuel (next_line saved) hs
                  (Shorter-mono (next_line saved) (length saved) fuel (next_line-Shorter saved)
                    (omega arith))
                  (subst (All IsFine) (tokens-strtok (one_of (codes "\r\n")) saved) fine)))
      ]
    ]

host_header-Returns :
    (buf : Bytes) (status : ℕ) (m : ReqType)
    → 100 ≤ status
    → All IsFine (tokens (one_of (codes "\r\n")) buf)
    → Returns (host_header buf status m) (λ out. out.0.0 ≡ Rc.ok)
unfolding host_header host_header_done next_line
host_header-Returns buf status m h fine =
    let big : ltb status 100 ≡ false = ground arith in
    rw big (
      Returns-and_then (line_loop (suc (length buf)) (next_line buf) m.t_content_header) _
        (λ hs. Unit {0}) _
        (line_loop-Returns (suc (length buf)) (next_line buf) m.t_content_header
          (Shorter-mono (next_line buf) (length buf) (suc (length buf)) (next_line-Shorter buf)
            (omega arith))
          (subst (All IsFine) (tokens-strtok (one_of (codes "\r\n")) buf) fine))
        (λ hs k. refl))

header_mime-Returns :
    (size : ℕ) (uri : Bytes)
    → (ext : Bytes) × (strrchr uri b'.' ≡ some ext)
    → Returns (header_mime size uri) (λ out. out.0 ≡ Rc.ok)
unfolding header_mime
header_mime-Returns size uri (ext, dot) = rw (dot, header_mime) refl

pub start_line-dotted :
    (m : ReqType) (method uri version : Bytes)
    → IsDotted uri
    → (ext : Bytes) × (strrchr (start_line m (method, uri, version)).uri b'.' ≡ some ext)
unfolding start_line fit str_eq strrchr
start_line-dotted m method uri version (inl e) = rw e (codes ".html", refl)
start_line-dotted m method uri version (inr dotted) =
    elim (Bool-cases (str_eq (fit Size.uri uri) (codes "/"))) [
      | inl e ↦ rw e (codes ".html", refl)
      | inr e ↦ rw e dotted
    ]

pub host_request-Returns :
    (buf : Bytes) (m : ReqType)
    → (ext : Bytes) × (strrchr m.uri b'.' ≡ some ext)
    → All IsFine (tokens (one_of (codes "\r\n")) buf)
    → Returns (host_request buf m) (λ out. out.0 ≡ Rc.ok)
unfolding host_request
host_request-Returns buf m dot fine =
    Returns-and_then (header_mime Size.value m.uri) _ (λ typed. typed.0 ≡ Rc.ok) _
      (header_mime-Returns Size.value m.uri dot)
      (λ typed k.
        Returns-and_then (host_header buf (if is_nat typed.0 0 then 200 else 400) _) _
          (λ out. out.0.0 ≡ Rc.ok) (λ out. out.0 ≡ Rc.ok)
          (host_header-Returns buf (if is_nat typed.0 0 then 200 else 400) _ (ground arith) fine)
          (λ out k'. k'))
