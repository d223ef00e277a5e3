-- ===== src/Http/Body.antt =====
-- The blank line of a message: what the client sends has its body where the server looks for it, and
-- so have the server's responses.
use zam_tok.Prelude.{ℕ, [], ◌∷◌, ◌++◌, some, Bytes, codes, ◌≡◌, refl, ◌∙◌, arith, length}
use zam_tok.CString.{is_prefix, strstr, decimal}
use zam_tok.CString.Search.{Free, strstr-skip, strstr_self, is_prefix-append}
use zam_tok.CString.Format.{decimal-IsDigit, IsDigit-Free}
use zam_tok.Util.{Res}
use zam_tok.Chat.{http_request}
use zam_tok.Hdl.Send.{wire_text}
use zam_tok.Http.Helpers.{http_get_body}

abbrev pub blank_line : Bytes
blank_line = codes "\r\n\r\n"

-- No match starts in a text without the first byte of the pattern.
strstr-Free : (c : ℕ) (p s t : Bytes) → Free c s → strstr (s ++ t) (c ∷ p) ≡ strstr t (c ∷ p)
strstr-Free c p [] t h = refl
strstr-Free c p (d ∷ s) t (q, h) =
    strstr-skip (c ∷ p) (s ++ t) d (unfold is_prefix in ground arith) ∙ strstr-Free c p s t h

get_body-found :
    (buf body : Bytes)
    → strstr buf blank_line ≡ some (blank_line ++ body)
    → http_get_body buf ≡ body
unfolding http_get_body
get_body-found buf body e = rw (e, http_get_body)

abbrev NoCr : Bytes → Type 0
NoCr = Free b'\r'

decimal-NoCr : (n : ℕ) → NoCr (decimal n)
decimal-NoCr n = (IsDigit-Free (decimal n) (decimal-IsDigit n)).0

skip : (s t : Bytes) → NoCr s → strstr (s ++ t) blank_line ≡ strstr t blank_line
skip s t h = strstr-Free b'\r' (codes "\n\r\n") s t h

at_blank_line : (body : Bytes) → strstr (blank_line ++ body) blank_line ≡ some (blank_line ++ body)
at_blank_line body = strstr_self blank_line _ (is_prefix-append blank_line body)

-- The server takes for the body of a request exactly the body that the client printed into it, where
-- method, path and host have no carriage return.
pub http_get_body-http_request :
    (method path host body : Bytes)
    → Free b'\r' method
    → Free b'\r' path
    → Free b'\r' host
    → http_get_body (http_request method path host body) ≡ body
unfolding http_request strstr is_prefix
http_get_body-http_request method path host body hm hp hh = get_body-found _ body (
    skip method _ hm
    ∙ skip path _ hp
    ∙ skip host _ hh
    ∙ skip (decimal (length body)) _ (decimal-NoCr (length body))
    ∙ at_blank_line body)

-- Behind the first blank line of the text that is sent for a response stands the response's data,
-- where its reason has no carriage return.
pub http_get_body-wire_text :
    (r : Res) → Free b'\r' r.str_reason → http_get_body (wire_text r) ≡ r.t_body.str_data
unfolding wire_text strstr is_prefix
http_get_body-wire_text r h = get_body-found _ r.t_body.str_data (
    skip (decimal r.i_status_code) _ (decimal-NoCr r.i_status_code)
    ∙ skip r.str_reason _ h
    ∙ skip (decimal (length r.t_body.str_data)) _ (decimal-NoCr _)
    ∙ at_blank_line r.t_body.str_data)
