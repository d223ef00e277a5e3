-- ===== src/Http/Lists/Printed.antt =====
-- The list that is printed piece by piece is the whole list, or nothing.
use zam_tok.Prelude.{
  ℕ, ◌+◌, ◌≤◌, ◌<◌, List, [], ◌∷◌, ◌++◌, Option, none, some, Bytes, codes, ◌≡◌, inl, inr, ap, ◌∙◌,
  arith, ltb, leb, if◌then◌else◌, Bool-cases, length, append_assoc, append-nil, length-append,
  leb→le,
}
use zam_tok.Codes.Size
use zam_tok.Http.Lists.{print_behind, comma, print_loop, print_list}

-- The entries with commas between them, from the index on.
abbrev pub separated : ℕ → List Bytes → Bytes
separated i [] = []
separated i (e ∷ r) = comma i ++ (e ++ separated (i + 1) r)

-- The JSON list of the entries.
abbrev pub json_list : List Bytes → Bytes
json_list entries = codes "[" ++ (separated 0 entries ++ codes "]")

-- What is left of a text that has to fit the array with its NUL.
abbrev pub if_fits : Bytes → Option Bytes
if_fits s = if ltb (length s) Size.body_data then some s else none

too_long : (s t : Bytes) → Size.body_data ≤ length s → none ≡ if_fits (s ++ t)
too_long s t h = ground (arith, length-append {0} s t)

print_loop-separated :
    (es : List Bytes) (i : ℕ) (s : Bytes)
    → length s < Size.body_data
    → print_loop es i s ≡ if_fits (s ++ separated i es)
unfolding print_loop print_behind
print_loop-separated [] i s h = rw append-nil (ground arith)
print_loop-separated (e ∷ es) i s h =
    let entry = comma i ++ e in
    let whole : (s ++ entry) ++ separated (i + 1) es ≡ s ++ separated i (e ∷ es) =
      append_assoc s entry (separated (i + 1) es)
      ∙ ap (λ (t : Bytes). s ++ t) (append_assoc (comma i) e (separated (i + 1) es)) in
    elim (Bool-cases (leb Size.body_data (length s + length entry))) [
      | inl long ↦
          rw (long, print_loop)
            (rw (← whole)
              (too_long (s ++ entry) _ (omega (arith, length-append {0} s entry, leb→le _ _ long))))
      | inr short ↦
          rw (short, print_loop)
            (print_loop-separated es (i + 1) (s ++ entry)
                (ground (arith, length-append {0} s entry))
              ∙ ap if_fits whole)
    ]

-- The entries are printed as a JSON list with commas between them, if it fits the array of 1024 bytes
-- with its NUL; otherwise the printing fails, and no part of the list is returned.
pub print_list_lem : (es : List Bytes) → print_list es ≡ if_fits (json_list es)
unfolding print_list print_behind
print_list_lem es =
    let body = codes "[" ++ separated 0 es in
    let printed = print_loop-separated es 0 (codes "[") (omega arith) in
    elim (Bool-cases (ltb (length body) Size.body_data)) [
      | inl fits ↦
          rw (printed, print_list) (ground (arith, length-append {0} (separated 0 es) (codes "]")))
      | inr long ↦
          rw (printed, print_list) (ground (arith, length-append {0} (separated 0 es) (codes "]")))
    ]
