-- ===== src/Ctrl/Lines.antt =====
-- What `ctrl_read_line` of src/CLIENT/zt_ctrl.c makes of a line that the user types.
use zam_tok.Prelude.{
  ℕ, zero, suc, ◌-◌, ◌≤◌, ◌<◌, [], ◌∷◌, ◌++◌, some, Bytes, ◌≡◌, ◌≢◌, inl, inr, refl, sym, ap, ◌∙◌,
  arith, ◌==◌, ltb, if◌then◌else◌, Bool-cases, length, take, drop, take-all, All-take, All-append,
}
use zam_tok.CString.{take_until}
use zam_tok.CString.Search.{Free, take_until-append}
use zam_tok.Outcome.{returns}
use zam_tok.Ctrl.{Client, say, line_of, fgets, unless_empty, ctrl_read_line}

-- What is left of the input where an array takes as many bytes of a line: the newline stays in it unless
-- it fits as well.
abbrev pub left_over : ℕ → Bytes → Bytes → Bytes
left_over n line rest = if ltb (length line) n then rest else drop n line ++ b'\n' ∷ rest

-- With the newline, where it was read.
abbrev with_newline : ℕ → Bytes → Bytes
with_newline n line = if ltb (length line) n then line ++ b'\n' ∷ [] else take n line

line_of_lem :
    (n : ℕ) (line rest : Bytes)
    → Free (b'\n') line
    → line_of n (line ++ b'\n' ∷ rest) ≡ (with_newline n line, left_over n line rest)
unfolding line_of
line_of_lem zero [] rest h = refl
line_of_lem zero (c ∷ line) rest h = ground arith
line_of_lem (suc n) [] rest h = ground arith
line_of_lem (suc n) (c ∷ line) rest (p, h) = ground (arith, line_of_lem n line rest h)

take_until-Free : (b : ℕ) (v : Bytes) → Free b v → take_until (λ c. c == b) v ≡ v
unfolding take_until
take_until-Free b [] h = refl
take_until-Free b (c ∷ v) (p, h) = ground (arith, take_until-Free b v h)

-- The line that the array holds behind `strchr`.
line-kept :
    (n : ℕ) (line : Bytes)
    → Free (b'\n') line
    → Free 0 line
    → take_until (λ c. c == b'\n') (take_until (λ c. c == 0) (with_newline n line)) ≡ take n line
line-kept n line h z = elim (Bool-cases (ltb (length line) n)) [
  | inl e ↦ rw e (
      ap (take_until (λ c. c == b'\n')) (
        take_until-Free 0 (line ++ b'\n' ∷ [])
          (All-append (λ c. c ≢ 0) line (b'\n' ∷ []) z ((λ q. omega (arith, q)), tt)))
      ∙ take_until-append (b'\n') line [] h
      ∙ sym (take-all n line (ground arith)))
  | inr e ↦ rw e (
      ap (take_until (λ c. c == b'\n'))
        (take_until-Free 0 (take n line) (All-take (λ c. c ≢ 0) n line z))
      ∙ take_until-Free (b'\n') (take n line) (All-take (λ c. c ≢ b'\n') n line h))
]

unless_empty-take :
    (n : ℕ) (line : Bytes)
    → 0 < n
    → 0 < length line
    → unless_empty (take n line) ≡ some (take n line)
unless_empty-take zero line h k = absurd (omega arith)
unless_empty-take (suc n) [] h k = absurd (omega arith)
unless_empty-take (suc n) (c ∷ line) h k = refl

-- A line that the user types, of bytes that are neither NUL nor a newline, is read whole if it and its
-- newline fit in the array before the NUL. Of a longer line the array takes what it has room for, and the
-- rest of the line, its newline included, is left for the next question.
pub ctrl_read_line_lem :
    (prompt : Bytes) (size : ℕ) (line rest : Bytes) (c : Client)
    → 2 ≤ size
    → Free (b'\n') line
    → Free 0 line
    → 0 < length line
    → c.stdin ≡ line ++ b'\n' ∷ rest
    → ctrl_read_line prompt size c
      ≡ returns (
        some (take (size - 1) line),
        record (say prompt c) { stdin = left_over (size - 1) line rest },
      )
unfolding ctrl_read_line fgets
ctrl_read_line_lem prompt size [] rest c big h z some_ e = absurd (omega arith)
ctrl_read_line_lem prompt size (b ∷ line) rest c big h z some_ e =
    rw
      (
        e,
        ctrl_read_line,
        line_of_lem (size - 1) (b ∷ line) rest h,
        ctrl_read_line,
        line-kept (size - 1) (b ∷ line) h z,
        unless_empty-take (size - 1) (b ∷ line) (omega arith) some_,
      )
      refl
