-- ===== src/Ctrl/Parsed.antt =====
-- What `parse_cmd_line` of src/CLIENT/zt_ctrl.c reads out of a line.
use zam_tok.Prelude.{
  ℕ, zero, suc, [], ◌∷◌, Option, none, some, Bytes, ◌≡◌, inl, inr, refl, ap, Bool-cases, take, drop,
}
use zam_tok.CString.{take_until, drop_until, strtok, tokens, is_ws, skip_ws}
use zam_tok.CString.Tokens.{tokens-strtok}
use zam_tok.Ctrl.Handler.{parse_cmd_line}

-- The first word of a text without white space in front, and what is behind it.
abbrev first_word : Bytes → Option (Bytes × Bytes)
first_word [] = none
first_word (c ∷ s) = some (take_until is_ws (c ∷ s), drop 1 (drop_until is_ws (c ∷ s)))

strtok-skip_ws : (s : Bytes) → strtok is_ws s ≡ first_word (skip_ws s)
unfolding strtok skip_ws take_until drop_until
strtok-skip_ws [] = refl
strtok-skip_ws (c ∷ s) = elim (Bool-cases (is_ws c)) [
  | inl e ↦ rw e (strtok-skip_ws s)
  | inr e ↦ rw e (rw e refl)
]

parsed-step :
    (n : ℕ) (line s : Bytes)
    → ((rest : Bytes) → parse_cmd_line n rest ≡ take n (tokens is_ws rest))
    → skip_ws line ≡ s
    → parse_cmd_line (suc n) line ≡ take (suc n) (tokens is_ws line)
unfolding parse_cmd_line
parsed-step n line [] h e =
    rw (e, parse_cmd_line, tokens-strtok is_ws line, strtok-skip_ws line, e) refl
parsed-step n line (c ∷ s) h e =
    rw (e, parse_cmd_line, tokens-strtok is_ws line, strtok-skip_ws line, e)
      (ap (◌∷◌ (take_until is_ws (c ∷ s))) (h (drop 1 (drop_until is_ws (c ∷ s)))))

-- The arguments of a command line are its words, as `strtok` finds them between white space, up to the
-- number of arguments that there is room for.
pub parse_cmd_line-tokens :
    (max_argc : ℕ) (line : Bytes) → parse_cmd_line max_argc line ≡ take max_argc (tokens is_ws line)
unfolding parse_cmd_line
parse_cmd_line-tokens zero line = refl
parse_cmd_line-tokens (suc n) line =
    parsed-step n line (skip_ws line) (parse_cmd_line-tokens n) refl
