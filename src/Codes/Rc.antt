-- ===== src/Codes/Rc.antt =====
-- `return_code_t` of src/SERVER/zt_common.h: no member of it is negative.
use zam_tok.Prelude.{ℤ, pos}

abbrev pub ok : ℤ
ok = pos 0

abbrev pub fail : ℤ
fail = pos 1

abbrev pub arg_invalid : ℤ
arg_invalid = pos 2

abbrev pub socket : ℤ
socket = pos 3

abbrev pub ctx : ℤ
ctx = pos 4

abbrev pub redis : ℤ
redis = pos 5
