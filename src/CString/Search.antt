-- ===== src/CString/Search.antt =====
-- `strcmp`, `strstr` and `strchr`: what a match is, and that the first one is found.
use zam_tok.Prelude.{
  ℕ, ◌+◌, ◌≤◌, true, false, [], ◌∷◌, ◌++◌, Option, none, some, ◌==◌, Bytes, ◌≡◌, ◌≢◌, ◌↔◌, refl, ap,
  arith, inl, inr, Bool-cases, length, drop, length-append, All,
}
use zam_tok.CString.{str_eq, is_prefix, strstr, strchr, take_until}

pub str_eq_iff : (a b : Bytes) → (str_eq a b ≡ true) ↔ (a ≡ b)
unfolding str_eq
str_eq_iff (x ∷ a) (y ∷ b) = ground (arith, str_eq_iff a b)
str_eq_iff _ _ = ground arith

pub str_eq_self : (a : Bytes) → str_eq a a ≡ true
str_eq_self a = (str_eq_iff a a).1 refl

pub str_eq-ne : (a b : Bytes) → a ≢ b → str_eq a b ≡ false
str_eq-ne a b h = ground (arith, str_eq_iff a b)

pub is_prefix-append : (p s : Bytes) → is_prefix p (p ++ s) ≡ true
unfolding is_prefix
is_prefix-append [] s = refl
is_prefix-append (c ∷ p) s = ground (arith, is_prefix-append p s)

pub is_prefix-split : (p s : Bytes) → is_prefix p s ≡ true → s ≡ p ++ drop (length p) s
unfolding is_prefix
is_prefix-split [] s h = refl
is_prefix-split (c ∷ p) (d ∷ s) h = ground (arith, is_prefix-split p s)
is_prefix-split _ _ h = ground arith

pub strstr_self : (p s : Bytes) → is_prefix p s ≡ true → strstr s p ≡ some s
unfolding strstr
strstr_self p [] h = rw h
strstr_self p (c ∷ s) h = rw h

pub strstr-skip :
    (p s : Bytes) (c : ℕ) → is_prefix p (c ∷ s) ≡ false → strstr (c ∷ s) p ≡ strstr s p
unfolding strstr
strstr-skip p s c h = rw h

-- What `strstr` returns is an end of the text that begins with the pattern.
pub strstr_sound :
    (s p : Bytes) {t : Bytes}
    → strstr s p ≡ some t
    → (before : Bytes) × (s ≡ before ++ t) × (is_prefix p t ≡ true)
unfolding strstr
strstr_sound [] p h = elim (Bool-cases (is_prefix p [])) [
  | inl hit ↦ ([], ground arith, ground arith)
  | inr miss ↦ absurd (ground arith)
]
strstr_sound (c ∷ s) p {t} h = elim (Bool-cases (is_prefix p (c ∷ s))) [
  | inl hit ↦ ([], ground arith, ground arith)
  | inr miss ↦
      let (before, split, starts) = strstr_sound s p (rw (strstr-skip p s c miss) at h) in
      (c ∷ before, ap (◌∷◌ c) split, starts)
]

-- Wherever the pattern occurs, `strstr` finds an occurrence, and none starts further left.
abbrev pub FoundBy : Bytes → Bytes → Option Bytes → Type 0
FoundBy p b none = ⊥
FoundBy p b (some t) = length p + length b ≤ length t

pub strstr-FoundBy : (s p a b : Bytes) → s ≡ a ++ (p ++ b) → FoundBy p b (strstr s p)
unfolding strstr
strstr-FoundBy [] p [] b e =
    rw (rw (← e) at (is_prefix-append p b)) (omega (arith, ap length e, length-append p b))
strstr-FoundBy [] p (x ∷ a) b e = absurd (cc)
strstr-FoundBy (c ∷ s) p [] b e =
    rw (rw (← e) at (is_prefix-append p b)) (omega (arith, ap length e, length-append p b))
strstr-FoundBy (c ∷ s) p (x ∷ a) b e = elim (Bool-cases (is_prefix p (c ∷ s))) [
  | inl hit ↦ rw hit (omega (arith, ap length e, length-append a (p ++ b), length-append p b))
  | inr miss ↦ rw miss (strstr-FoundBy s p a b (cc))
]

-- A text without a given byte.
abbrev pub Free : ℕ → Bytes → Type 0
Free b = All (λ c. c ≢ b)

pub strchr-append : (b : ℕ) (v t : Bytes) → Free b v → strchr (v ++ b ∷ t) b ≡ some (b ∷ t)
unfolding strchr
strchr-append b [] t h = ground arith
strchr-append b (c ∷ v) t (p, h) = ground (arith, strchr-append b v t h)

pub take_until-append : (b : ℕ) (v t : Bytes) → Free b v → take_until (λ c. c == b) (v ++ b ∷ t) ≡ v
unfolding take_until
take_until-append b [] t h = ground arith
take_until-append b (c ∷ v) t (p, h) = ground (arith, take_until-append b v t h)
