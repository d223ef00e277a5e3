-- ===== src/Host/Handled.antt =====
-- What the functions of src/CLIENT/zt_hdl.c that serve clients come to.
use zam_tok.Prelude.{
  ℕ, ◌+◌, zero, suc, ◌<◌, ℤ, Bool, true, false, List, [], ◌∷◌, Option, none, some, Bytes, ◌≡◌, refl,
  length, get_or,
}
use zam_tok.CString.{strrchr}
use zam_tok.Codes.Rc
use zam_tok.Outcome.{Outcome, returns, overruns}
use zam_tok.Hdl.Header.{mime_of, hdl_header_mime}
use zam_tok.Hdl.Request.{Read, received, again, broken}
use zam_tok.Host.{text_400, type_of_ext, header_mime}
use zam_tok.Host.Requests.{HasGoodLines, text_of, line_of}

-- What `HDL_HEADER_MIME` of the client should come to, by the function of the server.
abbrev pub as_served : ℕ → Bytes → Option Bytes → Outcome (ℤ × Bytes)
as_served size uri none = overruns
as_served size uri (some ext) = returns (hdl_header_mime size uri)

mime_by_dot :
    (size : ℕ) (uri : Bytes) (o : Option Bytes)
    → strrchr uri b'.' ≡ o
    → header_mime size uri ≡ as_served size uri o
unfolding header_mime hdl_header_mime mime_of type_of_ext
mime_by_dot size uri none e = rw (e, header_mime) refl
mime_by_dot size uri (some ext) e = rw (e, header_mime) refl

-- `HDL_HEADER_MIME` of the client does what `hdl_header_mime` of the server does on every URI with a dot,
-- and reads the NULL pointer on every other.
pub header_mime-as_served :
    (size : ℕ) (uri : Bytes) → header_mime size uri ≡ as_served size uri (strrchr uri b'.')
header_mime-as_served size uri = mime_by_dot size uri (strrchr uri b'.') refl

-- A read that does not fail for good, nor fill the buffer.
abbrev pub IsServable : Read → Type 0
IsServable again = Unit
IsServable broken = ⊥
IsServable (received bytes) = (length bytes < 1024) × HasGoodLines (text_of bytes) (line_of bytes)

-- Whether a text without a request line is read before the attempts are used up.
abbrev pub is_refused : ℕ → List Read → Bool
is_refused zero rs = false
is_refused (suc left) [] = false
is_refused (suc left) (again ∷ rs) = is_refused left rs
is_refused (suc left) (broken ∷ rs) = false
is_refused (suc left) (received bytes ∷ rs) =
    let later = is_refused (suc left) rs in
    elim (line_of bytes) as (λ x. Bool) [ none ↦ true | some line ↦ later ]

-- What is returned and written.
abbrev pub answer : Bool → ℤ × List Bytes
answer true = (Rc.arg_invalid, text_400 ∷ [])
answer false = (Rc.ok, [])

-- From the i-th one on, the reads are those of the list, and then all ask to try again.
Reads : (ℕ → Read) → ℕ → List Read → Type 0
Reads read i rs = (j : ℕ) → read (i + j) ≡ get_or rs j again
