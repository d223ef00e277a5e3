-- ===== src/CString/Tokens.antt =====
-- `strtok` and trimming by hand.
use zam_tok.Prelude.{
  ℕ, Bool, true, false, List, [], ◌∷◌, ◌++◌, Option, none, some, Bytes, ◌≡◌, ◌≢◌, inl, inr, refl,
  sym, ap, ◌∙◌, subst, if◌then◌else◌, Bool-cases, drop, append_assoc, append-nil, All, All-append,
}
use zam_tok.CString.{take_until, drop_until, strtok, tokens_from, tokens, is_ws, skip_ws, trim_end}

-- The tokens are those of repeated calls of `strtok`.
abbrev pub then_tokens : (ℕ → Bool) → Option (Bytes × Bytes) → List Bytes
then_tokens d none = []
then_tokens d (some (t, r)) = t ∷ tokens d r

tokens_from-token :
    (d : ℕ → Bool) (t : ℕ) (cur s : Bytes)
    → tokens_from d (t ∷ cur) s ≡ (t ∷ (cur ++ take_until d s)) ∷ tokens d (drop 1 (drop_until d s))
unfolding tokens tokens_from take_until drop_until
tokens_from-token d t cur [] = rw append-nil
tokens_from-token d t cur (c ∷ s) = elim (Bool-cases (d c)) [
  | inl stop ↦ rw stop (rw append-nil)
  | inr more ↦ rw more (tokens_from-token d t (cur ++ c ∷ []) s ∙ rw append_assoc)
]

pub tokens-strtok : (d : ℕ → Bool) (s : Bytes) → tokens d s ≡ then_tokens d (strtok d s)
unfolding tokens tokens_from strtok
tokens-strtok d [] = refl
tokens-strtok d (c ∷ s) = elim (Bool-cases (d c)) [
  | inl stop ↦ rw stop (tokens-strtok d s)
  | inr more ↦ rw more (tokens_from-token d c [] s)
]

-- A token is not empty and holds no delimiter.
abbrev pub IsToken : (ℕ → Bool) → Bytes → Type 0
IsToken d t = (t ≢ []) × All (λ c. d c ≡ false) t

tokens_from-IsToken :
    (d : ℕ → Bool) (cur s : Bytes)
    → All (λ c. d c ≡ false) cur
    → All (IsToken d) (tokens_from d cur s)
unfolding tokens_from
tokens_from-IsToken d [] [] h = tt
tokens_from-IsToken d (t ∷ cur) [] h = ((λ e. cc, h), tt)
tokens_from-IsToken d [] (c ∷ s) h = elim (Bool-cases (d c)) [
  | inl stop ↦ rw stop (tokens_from-IsToken d [] s tt)
  | inr more ↦ rw more (tokens_from-IsToken d (c ∷ []) s (more, tt))
]
tokens_from-IsToken d (t ∷ cur) (c ∷ s) (p, h) = elim (Bool-cases (d c)) [
  | inl stop ↦ rw stop (((λ e. cc, (p, h))), tokens_from-IsToken d [] s tt)
  | inr more ↦ rw more (
      tokens_from-IsToken d (t ∷ (cur ++ c ∷ [])) s
        (p, All-append (λ x. d x ≡ false) cur (c ∷ []) h (more, tt)))
]

pub tokens-IsToken : (d : ℕ → Bool) (s : Bytes) → All (IsToken d) (tokens d s)
unfolding tokens
tokens-IsToken d s = tokens_from-IsToken d [] s tt

-- A text that begins and ends with no white space.
abbrev pub StartsPlain : Bytes → Type 0
StartsPlain [] = Unit
StartsPlain (c ∷ s) = is_ws c ≡ false

abbrev pub EndsPlain : Bytes → Type 0
EndsPlain [] = Unit
EndsPlain (c ∷ []) = is_ws c ≡ false
EndsPlain (c ∷ d ∷ s) = EndsPlain (d ∷ s)

skip_ws-StartsPlain : (s : Bytes) → StartsPlain (skip_ws s)
unfolding skip_ws
skip_ws-StartsPlain [] = tt
skip_ws-StartsPlain (c ∷ s) = elim (Bool-cases (is_ws c)) [
  | inl ws ↦ rw ws (skip_ws-StartsPlain s)
  | inr plain ↦ rw plain plain
]

abbrev pub IsBlank : Bytes → Type 0
IsBlank = All (λ c. is_ws c ≡ true)

skip_ws-split : (s : Bytes) → (before : Bytes) × IsBlank before × (s ≡ before ++ skip_ws s)
unfolding skip_ws
skip_ws-split [] = ([], tt, refl)
skip_ws-split (c ∷ s) = elim (Bool-cases (is_ws c)) [
  | inl ws ↦
      let (before, blank, same) = skip_ws-split s in
      (c ∷ before, (ws, blank), rw ws (ap (◌∷◌ c) same))
  | inr plain ↦ ([], tt, rw plain)
]

-- What `trim_end` makes of a byte in front of what it made of the rest.
abbrev keep : ℕ → Bytes → Bytes
keep c [] = if is_ws c then [] else c ∷ []
keep c (d ∷ t) = c ∷ d ∷ t

trim_end-cons : (c : ℕ) (s : Bytes) → trim_end (c ∷ s) ≡ keep c (trim_end s)
unfolding trim_end
trim_end-cons c s = go (trim_end s) refl
  where
    go : (t : Bytes) → trim_end s ≡ t → trim_end (c ∷ s) ≡ keep c (trim_end s)
    go [] e = rw (e, trim_end) refl
    go (d ∷ t) e = rw (e, trim_end) refl

keep-split :
    (c : ℕ) (t behind : Bytes)
    → IsBlank behind
    → (rest : Bytes) × IsBlank rest × (c ∷ (t ++ behind) ≡ keep c t ++ rest)
keep-split c [] behind h = elim (Bool-cases (is_ws c)) [
  | inl ws ↦ (c ∷ behind, (ws, h), rw ws)
  | inr plain ↦ (behind, h, rw plain)
]
keep-split c (d ∷ t) behind h = (behind, h, refl)

keep-EndsPlain : (c : ℕ) (t : Bytes) → EndsPlain t → EndsPlain (keep c t)
keep-EndsPlain c [] h = elim (Bool-cases (is_ws c)) [
  | inl ws ↦ rw ws tt
  | inr plain ↦ rw plain plain
]
keep-EndsPlain c (d ∷ t) h = h

keep-StartsPlain : (c : ℕ) (t : Bytes) → is_ws c ≡ false → StartsPlain (keep c t)
keep-StartsPlain c [] h = rw h h
keep-StartsPlain c (d ∷ t) h = h

trim_end-split : (s : Bytes) → (behind : Bytes) × IsBlank behind × (s ≡ trim_end s ++ behind)
unfolding trim_end
trim_end-split [] = ([], tt, refl)
trim_end-split (c ∷ s) =
    let (behind, blank, same) = trim_end-split s in
    let (rest, blank', same') = keep-split c (trim_end s) behind blank in
    (
      rest,
      blank',
      ap (◌∷◌ c) same ∙ same' ∙ ap (λ (t : Bytes). t ++ rest) (sym (trim_end-cons c s)),
    )

trim_end-EndsPlain : (s : Bytes) → EndsPlain (trim_end s)
unfolding trim_end
trim_end-EndsPlain [] = tt
trim_end-EndsPlain (c ∷ s) =
    subst EndsPlain (sym (trim_end-cons c s)) (keep-EndsPlain c (trim_end s) (trim_end-EndsPlain s))

trim_end-StartsPlain : (s : Bytes) → StartsPlain s → StartsPlain (trim_end s)
unfolding trim_end
trim_end-StartsPlain [] h = tt
trim_end-StartsPlain (c ∷ s) h =
    subst StartsPlain (sym (trim_end-cons c s)) (keep-StartsPlain c (trim_end s) h)

-- A text, trimmed at both ends.
pub record IsTrimmed (s t : Bytes) : Type 0 where
  pub before : Bytes
  pub behind : Bytes
  pub before_blank : IsBlank before
  pub behind_blank : IsBlank behind
  pub whole : s ≡ before ++ (t ++ behind)
  pub starts : StartsPlain t
  pub ends : EndsPlain t

pub trim-IsTrimmed : (s : Bytes) → IsTrimmed s (trim_end (skip_ws s))
trim-IsTrimmed s =
    let (before, blank, same) = skip_ws-split s in
    let (behind, blank', same') = trim_end-split (skip_ws s) in
    record {
      before = before;
      behind = behind;
      before_blank = blank;
      behind_blank = blank';
      whole = same ∙ ap (λ (t : Bytes). before ++ t) same';
      starts = trim_end-StartsPlain (skip_ws s) (skip_ws-StartsPlain s);
      ends = trim_end-EndsPlain (skip_ws s);
    }
