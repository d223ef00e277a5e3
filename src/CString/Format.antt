-- ===== src/CString/Format.antt =====
-- `snprintf`: what fits is copied whole, and the decimal digits of a number.
use zam_tok.Prelude.{
  ℕ, zero, suc, ◌+◌, ◌-◌, ◌*◌, ◌≤◌, ◌<◌, [], ◌∷◌, Bytes, ◌≡◌, ◌≢◌, inl, inr, ap, ◌∙◌, arith, ltb,
  Bool-cases, length, All, take-all, length-take, take-take, All-take, ltb→lt, ◌/◌, ◌%◌,
}
use zam_tok.CString.{fit, decimal_from, decimal}
use zam_tok.CString.Search.{Free}

pub fit-fits : (n : ℕ) (s : Bytes) → length s < n → fit n s ≡ s
unfolding fit
fit-fits n s h = take-all (n - 1) s (omega arith)

pub length-fit : (n : ℕ) (s : Bytes) → 0 < n → length (fit n s) < n
unfolding fit
length-fit n s h = omega (arith, length-take (n - 1) s)

pub length-fit_long : (n : ℕ) (s : Bytes) → 0 < n → n ≤ length s → length (fit n s) ≡ n - 1
unfolding fit
length-fit_long n s h k = omega (arith, length-take (n - 1) s)

pub fit-fit : (n : ℕ) (s : Bytes) → fit n (fit n s) ≡ fit n s
unfolding fit
fit-fit n s = take-take (n - 1) s

pub Free-fit : (b n : ℕ) (s : Bytes) → Free b s → Free b (fit n s)
unfolding fit
Free-fit b n s h = All-take (λ c. c ≢ b) (n - 1) s h

-- The number that a string of digits denotes, read from the left after a number.
abbrev pub value_from : ℕ → Bytes → ℕ
value_from n [] = n
value_from n (c ∷ s) = value_from (10 * n + (c - b'0')) s

abbrev pub IsDigit : ℕ → Type 0
IsDigit c = (b'0' ≤ c) × (c ≤ b'9')

decimal_from-value :
    (fuel n : ℕ) (acc : Bytes)
    → n < fuel
    → value_from 0 (decimal_from fuel n acc) ≡ value_from n acc
unfolding decimal_from
decimal_from-value zero n acc h = absurd (omega arith)
decimal_from-value (suc fuel) n acc h = elim (Bool-cases (ltb n 10)) [
  | inl small ↦ rw small (ap (λ (m : ℕ). value_from m acc) (omega (arith, ltb→lt n 10 small)))
  | inr large ↦ rw large (
      decimal_from-value fuel (n / 10) ((b'0' + n % 10) ∷ acc) (ground arith)
      ∙ ap (λ (m : ℕ). value_from m acc) (omega arith))
]

-- The digits that are printed denote the number.
pub value-decimal : (n : ℕ) → value_from 0 (decimal n) ≡ n
unfolding decimal
value-decimal n = decimal_from-value (suc n) n [] (omega arith)

decimal_from-IsDigit :
    (fuel n : ℕ) (acc : Bytes) → All IsDigit acc → All IsDigit (decimal_from fuel n acc)
unfolding decimal_from
decimal_from-IsDigit zero n acc h = h
decimal_from-IsDigit (suc fuel) n acc h = elim (Bool-cases (ltb n 10)) [
  | inl small ↦ rw small ((omega arith, omega arith), h)
  | inr large ↦
      rw large
        (decimal_from-IsDigit fuel (n / 10) ((b'0' + n % 10) ∷ acc) ((omega arith, omega arith), h))
]

pub decimal-IsDigit : (n : ℕ) → All IsDigit (decimal n)
unfolding decimal
decimal-IsDigit n = decimal_from-IsDigit (suc n) n [] tt

pub IsDigit-Free : (s : Bytes) → All IsDigit s → Free b'\r' s × Free b'\n' s
IsDigit-Free [] h = (tt, tt)
IsDigit-Free (c ∷ s) (d, h) =
    let rest = IsDigit-Free s h in ((omega arith, rest.0), (omega arith, rest.1))
