-- ===== src/Tests/Host.antt =====
-- The theorems about the client's functions that serve clients, at concrete inputs.
use zam_tok.Prelude.{List, [], ◌∷◌, Bytes, codes, ◌≡◌}
use zam_tok.CString.{strrchr}
use zam_tok.Hdl.Request.{Read, received, again}
use zam_tok.Host.{header_mime}
use zam_tok.Host.Handled.{as_served, header_mime-as_served}

-- A page, with a content field in its request.
abbrev page : Bytes
page = codes "GET /a.html HTTP/1.1\r\nContent-Type: text/html\r\n\r\n"

abbrev two_reads : List Read
two_reads = received page ∷ again ∷ received (codes "GET") ∷ []

header_mime-as_served_example :
    header_mime 128 (codes "/a.html")
    ≡ as_served 128 (codes "/a.html") (strrchr (codes "/a.html") b'.')
header_mime-as_served_example = header_mime-as_served 128 (codes "/a.html")
