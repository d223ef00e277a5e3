-- ===== src/Step.antt =====
-- The shape of the request handlers: code that changes the state and may leave by `goto next` with a
-- status and an error code set (src/SERVER/zt_http.c).
use zam_tok.Prelude.{ℕ, Bool, true, false}
use zam_tok.Codes.{ErrCode}

pub data Result (A : Type 0) : Type 0 where
  ok : A → Result A
  fail : ℕ → ErrCode → Result A

abbrev pub Step : Type 0 → Type 0 → Type 0
Step S A = S → Result A × S

-- What follows one step: `goto next` passes by the rest.
abbrev pub after : {S A B : Type 0} → Result A × S → (A → Step S B) → Result B × S
after (ok a, s) f = f a s
after (fail n e, s) f = (fail n e, s)

infixl 5 ◌>>=◌ ◌>>◌
abbrev pub ◌>>=◌ : {S A B : Type 0} → Step S A → (A → Step S B) → Step S B
◌>>=◌ m f s = after (m s) f

abbrev pub ◌>>◌ : {S B : Type 0} → Step S (Unit {0}) → Step S B → Step S B
m >> k = m >>= λ _. k

-- The end of the handler, with what the response needs.
abbrev pub done : {S A : Type 0} → A → Step S A
done a s = (ok a, s)

-- `if (!b) { status = n; err_code = e; goto next; }`
abbrev pub require : {S : Type 0} → Bool → ℕ → ErrCode → Step S (Unit {0})
require true n e s = (ok tt, s)
require false n e s = (fail n e, s)

-- A call that always returns a value.
abbrev pub call : {S A : Type 0} → (S → A × S) → Step S A
call f s = (ok (f s).0, (f s).1)
