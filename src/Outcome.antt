-- ===== src/Outcome.antt =====
-- What a call that can run on, or write behind an array, comes to: `out_of_fuel` is a loop that is cut
-- off, and `overruns` a write out of bounds, or a NULL pointer that is read, behind which the C language
-- promises nothing.
use zam_tok.Prelude.{◌≡◌, ◌≢◌, subst}

pub data Outcome (A : Type 0) : Type 0 where
  returns : A → Outcome A
  out_of_fuel : Outcome A
  overruns : Outcome A

-- What follows a call that returns.
abbrev pub and_then : {A B : Type 0} → Outcome A → (A → Outcome B) → Outcome B
and_then (returns a) f = f a
and_then out_of_fuel f = out_of_fuel
and_then overruns f = overruns

-- The call returns, with a value that has a property.
abbrev pub Returns : {A : Type 0} → Outcome A → (A → Type 0) → Type 0
Returns o P = elim o as (λ x. Type 0) [ returns a ↦ P a | out_of_fuel ↦ ⊥ | overruns ↦ ⊥ ]

pub Returns-and_then :
    {A B : Type 0} (o : Outcome A) (f : A → Outcome B) (P : A → Type 0) (Q : B → Type 0)
    → Returns o P
    → ((a : A) → P a → Returns (f a) Q)
    → Returns (and_then o f) Q
Returns-and_then (returns a) f P Q h k = k a h
Returns-and_then out_of_fuel f P Q h k = absurd h
Returns-and_then overruns f P Q h k = absurd h

pub Returns-weaken :
    {A : Type 0} (o : Outcome A) (P Q : A → Type 0)
    → Returns o P
    → ((a : A) → P a → Q a)
    → Returns o Q
Returns-weaken (returns a) P Q h k = k a h
Returns-weaken out_of_fuel P Q h k = absurd h
Returns-weaken overruns P Q h k = absurd h

pub Returns-ne-overruns : {A : Type 0} (o : Outcome A) (P : A → Type 0) → Returns o P → o ≢ overruns
Returns-ne-overruns (returns a) P h e = cc
Returns-ne-overruns out_of_fuel P h e = h
Returns-ne-overruns overruns P h e = h

-- If the call returns, its value has a property.
abbrev pub Ensures : {A : Type 0} → Outcome A → (A → Type 0) → Type 0
Ensures o P = elim o as (λ x. Type 0) [ returns a ↦ P a | out_of_fuel ↦ Unit | overruns ↦ Unit ]

pub Ensures-and_then :
    {A B : Type 0} (o : Outcome A) (f : A → Outcome B) (P : A → Type 0) (Q : B → Type 0)
    → Ensures o P
    → ((a : A) → P a → Ensures (f a) Q)
    → Ensures (and_then o f) Q
Ensures-and_then (returns a) f P Q h k = k a h
Ensures-and_then out_of_fuel f P Q h k = tt
Ensures-and_then overruns f P Q h k = tt

pub Ensures_any : {A : Type 0} (o : Outcome A) → Ensures o (λ a. Unit {0})
Ensures_any (returns a) = tt
Ensures_any out_of_fuel = tt
Ensures_any overruns = tt

pub Ensures-returns :
    {A : Type 0} (o : Outcome A) (P : A → Type 0) {a : A} → Ensures o P → o ≡ returns a → P a
Ensures-returns (returns b) P h e = subst P (cc) h
Ensures-returns out_of_fuel P h e = absurd (cc)
Ensures-returns overruns P h e = absurd (cc)
