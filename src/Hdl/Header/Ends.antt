-- ===== src/Hdl/Header/Ends.antt =====
-- The reading of the header lines ends.
use zam_tok.Prelude.{
  ℕ, ◌+◌, zero, suc, ◌≤◌, ◌<◌, ℤ, Bool, false, List, [], ◌∷◌, Option, none, some, Bytes, codes, ◌≡◌,
  inl, inr, refl, arith, ltb, Bool-cases, length, drop, length-drop,
}
use zam_tok.CString.{strtok, one_of, take_until, drop_until, strn_eq}
use zam_tok.Codes.Rc
use zam_tok.Codes.Size
use zam_tok.Util.{HeaderField, Req}
use zam_tok.Outcome.{Outcome, returns, out_of_fuel, overruns, and_then, Returns}
use zam_tok.Hdl.Header.{value_token, next_line, header_loop, header_done, hdl_header}

length-split :
    (d : ℕ → Bool) (s : Bytes) → length (take_until d s) + length (drop_until d s) ≡ length s
unfolding take_until drop_until
length-split d [] = omega arith
length-split d (c ∷ s) = ground (arith, length-split d s)

-- A token is not empty, and it and what is left are no longer than the text.
abbrev pub Shorter : Option (Bytes × Bytes) → ℕ → Type 0
Shorter o n = elim o as (λ x. Type 0) [
  | none ↦ Unit
  | some (t, r) ↦ (0 < length t) × (length t + length r ≤ n)
]

pub Shorter-mono : (o : Option (Bytes × Bytes)) (n m : ℕ) → Shorter o n → n ≤ m → Shorter o m
Shorter-mono none n m h k = tt
Shorter-mono (some (t, r)) n m h k = (h.0, omega arith)

pub length-drop_le : (n : ℕ) (s : Bytes) → length (drop n s) ≤ length s
length-drop_le n s = omega (arith, length-drop {0} n s)

pub strtok-Shorter : (d : ℕ → Bool) (s : Bytes) → Shorter (strtok d s) (length s)
unfolding strtok
strtok-Shorter d [] = tt
strtok-Shorter d (c ∷ s) = elim (Bool-cases (d c)) [
  | inl e ↦
      rw (e, Shorter)
        (Shorter-mono (strtok d s) (length s) (suc (length s)) (strtok-Shorter d s) (omega arith))
  | inr e ↦
      rw (e, Shorter)
        (omega arith, omega (arith, length-split d s, length-drop_le 1 (drop_until d s)))
]

length-value_token : (s : Bytes) → length (value_token s).1 ≤ length s
unfolding value_token
length-value_token s = go (strtok (one_of (codes " ")) s) (strtok-Shorter (one_of (codes " ")) s)
  where
    go :
        (o : Option (Bytes × Bytes))
        → Shorter o (length s)
        → length (elim o as (λ x. Bytes × Bytes) [ none ↦ ([], []) | some p ↦ p ]).1 ≤ length s
    go none h = omega arith
    go (some (t, r)) h = omega arith

pub next_line-Shorter : (s : Bytes) → Shorter (next_line s) (length s)
unfolding next_line
next_line-Shorter s = strtok-Shorter (one_of (codes "\r\n")) s

-- What has come of the lines: at most as many fields as there is room for.
abbrev pub Counted : List HeaderField × ℕ → Type 0
Counted (hs, count) = count ≤ Size.header_count

header_loop-Returns :
    (fuel : ℕ) (o : Option (Bytes × Bytes)) (hs : List HeaderField) (i : ℕ)
    → Shorter o fuel
    → i ≤ Size.header_count
    → Returns (header_loop fuel o hs i) Counted
unfolding header_loop
header_loop-Returns fuel none hs i h k = k
header_loop-Returns zero (some (line, saved)) hs i h k = absurd (omega arith)
header_loop-Returns (suc fuel) (some (line, saved)) hs i h k =
    elim (Bool-cases (ltb i Size.header_count)) [
      | inr full ↦ rw (full, Returns) k
      | inl space ↦ elim (Bool-cases (strn_eq 13 line (codes "Content-Type:"))) [
        | inl e ↦
            let value = value_token (drop 13 line) in
            rw (space, Returns)
              (rw (e, Returns)
                (header_loop-Returns fuel (next_line value.1) _ (i + 1)
                  (Shorter-mono (next_line value.1) (length value.1) fuel
                    (next_line-Shorter value.1)
                    (omega (arith, length-value_token (drop 13 line), length-drop {0} 13 line)))
                  (ground arith)))
        | inr e ↦ elim (Bool-cases (strn_eq 15 line (codes "Content-Length:"))) [
          | inl e' ↦
              let value = value_token (drop 15 line) in
              rw (space, Returns)
                (rw (e, Returns)
                  (rw (e', Returns)
                    (header_loop-Returns fuel (next_line value.1) _ (i + 1)
                      (Shorter-mono (next_line value.1) (length value.1) fuel
                        (next_line-Shorter value.1)
                        (omega (arith, length-value_token (drop 15 line), length-drop {0} 15 line)))
                      (ground arith))))
          | inr e' ↦
              rw (space, Returns)
                (rw (e, Returns)
                  (rw (e', Returns)
                    (header_loop-Returns fuel (next_line saved) hs i
                      (Shorter-mono (next_line saved) (length saved) fuel (next_line-Shorter saved)
                        (omega arith))
                      k)))
        ]
      ]
    ]

-- What has come of a request's header.
abbrev pub HeaderRead : (ℤ × Bytes) × Req → Type 0
HeaderRead ((rc, text), q) = (rc ≡ Rc.ok) × (q.i_content_header_count ≤ Size.header_count)

header_done-HeaderRead :
    (status : ℕ) (q : Req) (o : Outcome (List HeaderField × ℕ))
    → Returns o Counted
    → Returns (and_then o (λ out. returns (header_done status q out))) HeaderRead
unfolding header_done
header_done-HeaderRead status q (returns (hs, n)) h = (refl, h)
header_done-HeaderRead status q out_of_fuel h = absurd h
header_done-HeaderRead status q overruns h = absurd h

-- For a status from 100 on, `hdl_header` comes to an end on every text within one round for each byte,
-- never writes behind the sixteen fields, and returns `ZT_RC_OK`.
pub hdl_header-Returns :
    (buf : Bytes) (status : ℕ) (q : Req)
    → 100 ≤ status
    → Returns (hdl_header buf status q) HeaderRead
unfolding hdl_header
hdl_header-Returns buf status q h =
    let big : ltb status 100 ≡ false = ground arith in
    rw big (
      header_done-HeaderRead status q
        (header_loop (suc (length buf)) (next_line buf) q.t_content_headers 0)
        (header_loop-Returns (suc (length buf)) (next_line buf) q.t_content_headers 0
          (Shorter-mono (next_line buf) (length buf) (suc (length buf)) (next_line-Shorter buf)
            (omega arith))
          (omega arith)))
