-- ===== src/Util/Response.antt =====
-- What `generate_response` and `generate_response_body` put into a response.
use zam_tok.Prelude.{
  ℕ, zero, suc, ◌≤◌, ◌<◌, ℤ, List, [], ◌∷◌, Option, Bytes, ◌≡◌, ◌⊎◌, inl, inr, refl, sym, ap, ◌∙◌,
  arith, ltb, leb, Bool-cases, length, get_or, set, leb→le, ◌+◌, ◌*◌, ◌/◌, ◌%◌,
}
use zam_tok.CString.{fit, decimal, decimal_from}
use zam_tok.CString.Format.{fit-fits, value_from, value-decimal, length-fit_long}
use zam_tok.Codes.Rc
use zam_tok.Codes.Size
use zam_tok.Codes.{ErrCode, zt_err_code_str, zt_err_default_msg}
use zam_tok.Util.{
  no_header, Res, ResultKind, body_text, set_content_length, generate_response_body, HeaderField,
  is_success,
}

-- The numbers of at most one digit more than the argument lie below it.
abbrev limit : ℕ → ℕ
limit zero = 10
limit (suc k) = 10 * limit k

length-decimal_from :
    (k fuel n : ℕ) (acc : Bytes)
    → n < limit k
    → length (decimal_from fuel n acc) ≤ length acc + k + 1
unfolding decimal_from
length-decimal_from k zero n acc h = omega arith
length-decimal_from zero (suc fuel) n acc h = ground arith
length-decimal_from (suc k) (suc fuel) n acc h = elim (Bool-cases (ltb n 10)) [
  | inl small ↦ rw small (omega arith)
  | inr large ↦
      rw large
        (omega (arith, length-decimal_from k fuel (n / 10) ((b'0' + n % 10) ∷ acc) (omega arith)))
]

pub length-decimal : (n : ℕ) → n < 1024 → length (decimal n) < 6
unfolding decimal
length-decimal n h = omega (arith, length-decimal_from 3 (suc n) n [] (omega arith))

-- The value of the header field that `generate_response_body` sets.
abbrev pub content_length : Res → Bytes
content_length r = (get_or r.t_header_fields 1 no_header).str_value

abbrev pub HasHeaders : Res → Type 0
HasHeaders r = length r.t_header_fields ≡ Size.header_count

get_or-set {ℓ} :
    {A : Type ℓ} (xs : List A) (i : ℕ) (v d : A) → i < length xs → get_or (set xs i v) i d ≡ v
get_or-set [] i v d h = absurd (omega arith)
get_or-set (x ∷ xs) zero v d h = refl
get_or-set (x ∷ xs) (suc i) v d h = get_or-set xs i v d (omega arith)

content_length-set :
    (n : ℕ) (r : Res)
    → HasHeaders r
    → n < 1024
    → content_length (set_content_length n r) ≡ decimal n
unfolding set_content_length
content_length-set n r h lt =
    ap (λ (f : HeaderField). f.str_value) (get_or-set r.t_header_fields 1 _ no_header (omega arith))
    ∙ fit-fits Size.value (decimal n) (omega (arith, length-decimal n lt))

-- What holds of a response whose body is filled, with the return code.
abbrev pub BodyResult : Res → Bytes → ℤ × Res → Type 0
BodyResult before text (rc, r) =
    ((length text < Size.body_data)
      × (rc ≡ Rc.ok)
      × (r.t_body.str_data ≡ text)
      × (value_from 0 (content_length r) ≡ length r.t_body.str_data))
    ⊎ ((Size.body_data ≤ length text)
        × (rc ≡ Rc.arg_invalid)
        × (length r.t_body.str_data ≡ 1023)
        × (r.t_header_fields ≡ before.t_header_fields))

-- The response with its body filled in, before the length is set.
filled_data : (r : Res) (k : ResultKind) (e : ErrCode) (text : Bytes) → Res
filled_data r k e text = record r {
  t_body = record {
    b_success = is_success k;
    str_code = fit Size.code (zt_err_code_str e);
    str_message = fit Size.message (zt_err_default_msg e);
    str_data = fit Size.body_data text;
  };
}

-- On a response with its sixteen header fields, a body that fits is stored whole, and the
-- Content-Length header denotes its length; one that does not is cut to 1023 bytes, the header is left
-- as it was, and the code is `ZT_RC_ARG_INVALID`.
pub generate_response_body_lem :
    (r : Res) (k : ResultKind) (e : ErrCode) (d : Option Bytes)
    → HasHeaders r
    → BodyResult r (body_text k e d) (generate_response_body r k e d)
unfolding generate_response_body filled_data set_content_length
generate_response_body_lem r k e d h =
    let text = body_text k e d in
    elim (Bool-cases (leb Size.body_data (length text))) [
      | inl long ↦ rw long (
          inr (
            leb→le _ _ long,
            refl,
            length-fit_long Size.body_data text (omega arith) (leb→le _ _ long),
            refl,
          ))
      | inr short ↦
          let lt : length text < Size.body_data = ground arith in
          rw short (
            inl (
              lt,
              refl,
              fit-fits Size.body_data text lt,
              ap (value_from 0) (content_length-set (length text) (filled_data r k e text) h lt)
                  ∙ value-decimal (length text)
                  ∙ ap length (sym (fit-fits Size.body_data text lt)),
            ))
    ]
