-- ===== src/Ctrl.antt =====
-- The client's terminal, src/CLIENT/zt_ctrl.c: its state, and the reading of lines and numbers. `write`
-- and `atoi` are the fields of a `Terminal`. What is printed is kept as a list of texts; a call that
-- returns -1 instead of a value comes to `none`.
pub mod Members
pub mod Commands
pub mod Menu
pub mod Handler
pub mod Parsed
pub mod Ends
pub mod Finished
pub mod Lines
pub mod Written
pub mod Barred
pub mod Invitation
use zam_tok.Prelude.{
  ℕ, ◌+◌, zero, suc, ◌-◌, ◌*◌, ◌≤◌, ◌<◌, ℤ, pos, negsuc, is_neg, is_pos, is_nat, Bool, true, false,
  not, ◌&&◌, ◌||◌, List, [], ◌∷◌, ◌++◌, Option, none, some, Bytes, codes, ◌≡◌, ◌≢◌, ◌↔◌, ◌⊎◌, inl,
  inr, refl, sym, ap, ◌∙◌, subst, arith, ◌==◌, ltb, leb, if◌then◌else◌, Bool-cases, Option-cases,
  length, take, drop, get_or, set, append_assoc, append-nil, length-append, All, replicate,
  List-cases,
}
use zam_tok.CString.{str_eq, fit, take_until, decimal}
use zam_tok.Outcome.{Outcome, returns, out_of_fuel, and_then}

pub record Terminal : Type 0 where
  pub write : ℤ → Bytes → ℤ
  pub atoi : Bytes → ℤ

-- What is printed: a text, or one of the two tables.
pub data Shown : Type 0 where
  text : Bytes → Shown
  menu_table help_table : Shown

-- `user_id` is `g_login_user_id`, `socket` is `g_socket_fd`, `stdin` holds the bytes that are left
-- of the input, and `sent` what was handed to `write`, the first message first.
pub record Client : Type 0 where
  pub stdin : Bytes
  pub user_id : Bytes
  pub socket : ℤ
  pub sent : List Bytes
  pub shown : List Shown

abbrev pub show : Shown → Client → Client
show s c = record c { shown = c.shown ++ s ∷ [] }

abbrev pub say : Bytes → Client → Client
say s = show (text s)

-- A call of one of the senders: its code, and the message beside it.
abbrev pub deliver : ℤ × Option Bytes → Client → ℤ × Client
deliver (rc, none) c = (rc, c)
deliver (rc, some m) c = (rc, record c { sent = c.sent ++ m ∷ [] })

abbrev pub Ask : Type 0 → Type 0
Ask A = Client → Outcome (Option A × Client)

abbrev pub answer : {A B : Type 0} → Option A × Client → (A → Ask B) → Outcome (Option B × Client)
answer (none, c) f = returns (none, c)
answer (some a, c) f = f a c

infixl 5 ◌>>=◌
abbrev pub ◌>>=◌ : {A B : Type 0} → Ask A → (A → Ask B) → Ask B
◌>>=◌ m f c = and_then (m c) (λ out. answer out f)

abbrev pub give : {A : Type 0} → A → Ask A
give a c = returns (some a, c)

-- The bytes of a line with its newline, at most as many as given, and the rest.
unfoldable pub line_of : ℕ → Bytes → Bytes × Bytes
line_of zero s = ([], s)
line_of (suc n) [] = ([], [])
line_of (suc n) (c ∷ s) =
    let more = line_of n s in if c == b'\n' then (c ∷ [], s) else (c ∷ more.0, more.1)

-- `fgets(out, n, stdin)`: the string in the array, and what is left on stdin.
unfoldable pub fgets : ℕ → Bytes → Option (Bytes × Bytes)
unfolding line_of take_until
fgets n [] = none
fgets n (c ∷ s) =
    let line = line_of (n - 1) (c ∷ s) in some (take_until (λ x. x == 0) line.0, line.1)

-- `out[0] == '\0' ? -1 : 0`
abbrev pub unless_empty : Bytes → Option Bytes
unless_empty [] = none
unless_empty (c ∷ s) = some (c ∷ s)

unfoldable pub ctrl_read_line : Bytes → ℕ → Ask Bytes
unfolding fgets take_until
ctrl_read_line prompt out_size c = elim (fgets out_size c.stdin) [
  | none ↦ returns (none, say prompt c)
  | some (out, rest) ↦
      returns
        (unless_empty (take_until (λ x. x == b'\n') out), record (say prompt c) { stdin = rest })
]

-- `!strcmp(buf, a) || !strcmp(buf, b)`
abbrev pub either : Bytes → Bytes → Bytes → Bool
either a b buf = str_eq buf a || str_eq buf b

-- The loop of `ctrl_read_room_type`.
unfoldable pub room_type_loop : ℕ → Ask Bytes
unfolding str_eq fit
room_type_loop zero c = out_of_fuel
room_type_loop (suc fuel) c =
    and_then (ctrl_read_line (codes "room type (1=1:1, 2=1:N): ") 32 c) (λ out. answer out (λ buf d.
      elim (either (codes "1") (codes "1:1") buf) [
        | true ↦ returns (some (fit 8 (codes "1:1")), d)
        | false ↦ elim (either (codes "2") (codes "1:N") buf) [
          | true ↦ returns (some (fit 8 (codes "1:N")), d)
          | false ↦ room_type_loop fuel (say (codes "[create] Invalid room type\n") d)
        ]
      ]))

-- Each round reads a byte at least.
unfoldable pub ctrl_read_room_type : Ask Bytes
ctrl_read_room_type c = room_type_loop (length c.stdin + 1) c

-- `count >= min && count <= max`, and the count
abbrev pub within : ℕ → ℕ → ℤ → Option ℕ
within low high (pos n) = if leb low n && leb n high then some n else none
within low high (negsuc n) = none

module _ (T : Terminal) where
  -- The loop of `ctrl_read_count`.
  unfoldable pub number_loop : ℕ → Bytes → ℕ → ℕ → Ask ℕ
  unfolding decimal
  number_loop zero prompt low high c = out_of_fuel
  number_loop (suc fuel) prompt low high c = and_then (ctrl_read_line prompt 32 c) (λ out.
      answer out (λ buf d. elim (within low high (T.atoi buf)) [
        | some n ↦ returns (some n, d)
        | none ↦ number_loop fuel prompt low high (
            say
              (codes "[input] Count must be "
                ++ (decimal low ++ (codes ".." ++ (decimal high ++ codes "\n"))))
              d)
      ]))

  unfoldable pub ctrl_read_count : Bytes → ℕ → ℕ → Ask ℕ
  ctrl_read_count prompt low high c = number_loop (length c.stdin + 1) prompt low high c
