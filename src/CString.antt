-- ===== src/CString.antt =====
-- The functions of <string.h> and <stdio.h> that the program calls, on strings as lists of bytes.
-- A pointer into a string is the rest of the string from there on; NULL is `none`.
pub mod Search
pub mod Format
pub mod Tokens
use zam_tok.Prelude.{
  ℕ, zero, suc, ◌+◌, ◌-◌, ◌/◌, ◌%◌, Bool, true, false, ◌&&◌, ◌||◌, List, [], ◌∷◌, ◌++◌, Option,
  none, some, ◌==◌, ltb, if◌then◌else◌, Bytes, take, drop,
}

-- `strcmp(a, b) == 0`
unfoldable pub str_eq : Bytes → Bytes → Bool
str_eq [] [] = true
str_eq (x ∷ a) (y ∷ b) = x == y && str_eq a b
str_eq _ _ = false

-- `strncmp(a, b, n) == 0`
unfoldable pub strn_eq : ℕ → Bytes → Bytes → Bool
unfolding str_eq
strn_eq n a b = str_eq (take n a) (take n b)

unfoldable pub is_prefix : Bytes → Bytes → Bool
is_prefix [] s = true
is_prefix (p ∷ ps) [] = false
is_prefix (p ∷ ps) (c ∷ s) = p == c && is_prefix ps s

-- `strstr(s, p)`
unfoldable pub strstr : Bytes → Bytes → Option Bytes
unfolding is_prefix
strstr [] p = if is_prefix p [] then some [] else none
strstr (c ∷ s) p = if is_prefix p (c ∷ s) then some (c ∷ s) else strstr s p

-- `strchr(s, c)`, for a byte that is not NUL
unfoldable pub strchr : Bytes → ℕ → Option Bytes
strchr [] b = none
strchr (c ∷ s) b = if c == b then some (c ∷ s) else strchr s b

-- `strrchr(s, c)`, for a byte that is not NUL
unfoldable pub strrchr : Bytes → ℕ → Option Bytes
strrchr [] b = none
strrchr (c ∷ s) b = elim (strrchr s b) [
  | some t ↦ some t
  | none ↦ if c == b then some (c ∷ s) else none
]

-- The bytes before the first one that satisfies the test, and the rest from there on.
-- `strcspn(s, set)` is the length of the former.
unfoldable pub take_until : (ℕ → Bool) → Bytes → Bytes
take_until p [] = []
take_until p (c ∷ s) = if p c then [] else c ∷ take_until p s

unfoldable pub drop_until : (ℕ → Bool) → Bytes → Bytes
drop_until p [] = []
drop_until p (c ∷ s) = if p c then c ∷ s else drop_until p s

-- The white space that the program skips by hand: ' ', '\t', '\r', '\n'.
unfoldable pub is_ws : ℕ → Bool
is_ws c = c == b' ' || c == b'\t' || c == b'\r' || c == b'\n'

unfoldable pub skip_ws : Bytes → Bytes
unfolding is_ws
skip_ws [] = []
skip_ws (c ∷ s) = if is_ws c then skip_ws s else c ∷ s

-- What is left when trailing white space is cut off from the end, byte by byte.
unfoldable pub trim_end : Bytes → Bytes
unfolding is_ws
trim_end [] = []
trim_end (c ∷ s) = elim (trim_end s) [ [] ↦ (if is_ws c then [] else c ∷ []) | (d ∷ t) ↦ c ∷ d ∷ t ]

-- What `snprintf(buf, n, "%s", s)` leaves in `buf`: at most n - 1 bytes.
unfoldable pub fit : ℕ → Bytes → Bytes
fit n s = take (n - 1) s

-- One call of `strtok` on the saved position `s`: the token, and the position behind it.
unfoldable pub strtok : (ℕ → Bool) → Bytes → Option (Bytes × Bytes)
unfolding take_until drop_until
strtok d [] = none
strtok d (c ∷ s) = if d c then strtok d s else some (c ∷ take_until d s, drop 1 (drop_until d s))

-- The tokens that repeated calls of `strtok` with the same delimiters return. `cur` holds the bytes
-- of the token that is being read; an empty one is skipped.
unfoldable pub tokens_from : (ℕ → Bool) → Bytes → Bytes → List Bytes
tokens_from d [] [] = []
tokens_from d (t ∷ cur) [] = (t ∷ cur) ∷ []
tokens_from d [] (c ∷ s) =
    let skip = tokens_from d [] s in
    let start = tokens_from d (c ∷ []) s in if d c then skip else start
tokens_from d (t ∷ cur) (c ∷ s) =
    let close = (t ∷ cur) ∷ tokens_from d [] s in
    let longer = tokens_from d (t ∷ (cur ++ c ∷ [])) s in if d c then close else longer

unfoldable pub tokens : (ℕ → Bool) → Bytes → List Bytes
unfolding tokens_from
tokens d s = tokens_from d [] s

-- `%d` and `%zu` of a number: its decimal digits.
unfoldable pub decimal_from : ℕ → ℕ → Bytes → Bytes
decimal_from zero n acc = acc
decimal_from (suc fuel) n acc =
    let digits = (b'0' + n % 10) ∷ acc in
    let more = decimal_from fuel (n / 10) digits in if ltb n 10 then digits else more

unfoldable pub decimal : ℕ → Bytes
unfolding decimal_from
decimal n = decimal_from (suc n) n []

-- The set of delimiters that `strtok` or `strcspn` is given.
unfoldable pub one_of : Bytes → ℕ → Bool
one_of [] c = false
one_of (d ∷ ds) c = c == d || one_of ds c
