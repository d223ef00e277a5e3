-- ===== src/Ctrl/Handler.antt =====
-- The loop of the client's terminal: `parse_cmd_line`, `CTRL_handler` and `CTRL_start` of
-- src/CLIENT/zt_ctrl.c.
use zam_tok.Prelude.{
  ℕ, ◌+◌, zero, suc, ℤ, pos, negsuc, is_neg, Bool, true, false, List, [], ◌∷◌, none, some, Bytes,
  codes, if◌then◌else◌, length, drop,
}
use zam_tok.CString.{is_ws, skip_ws, take_until, drop_until}
use zam_tok.Outcome.{Outcome, returns, out_of_fuel, and_then}
use zam_tok.Ctrl.{Terminal, Client, menu_table, show, say, fgets}
use zam_tok.Ctrl.Commands.{ctrl_proc}

-- The arguments that the pointers in `argv` point to, at most as many as given.
unfoldable pub parse_cmd_line : ℕ → Bytes → List Bytes
unfolding is_ws skip_ws take_until drop_until
parse_cmd_line zero line = []
parse_cmd_line (suc max_argc) line = elim (skip_ws line) [
  | [] ↦ []
  | c ∷ s ↦ take_until is_ws (c ∷ s) ∷ parse_cmd_line max_argc (drop 1 (drop_until is_ws (c ∷ s)))
]

module _ (T : Terminal) where
  -- The loop ends at the end of the input, or with the program.
  unfoldable pub handler_loop : ℕ → Client → Outcome (Bool × Client)
  unfolding fgets parse_cmd_line
  handler_loop zero c = out_of_fuel
  handler_loop (suc fuel) c =
      let d = say (codes "select> ") c in
      elim (fgets 512 c.stdin) [
        | none ↦ returns (true, d)
        | some (line, rest) ↦ elim (parse_cmd_line 32 line) [
          | [] ↦ handler_loop fuel (show menu_table (record d { stdin = rest }))
          | word ∷ words ↦
              and_then (ctrl_proc T (word ∷ words) (record d { stdin = rest }))
                (λ out. elim out.0 [ true ↦ handler_loop fuel out.1 | false ↦ returns out ])
        ]
      ]

  -- Each round reads a byte at least.
  unfoldable pub ctrl_handler : Client → Outcome (Bool × Client)
  ctrl_handler c = handler_loop (length c.stdin + 1) (show menu_table c)

-- What `pthread_create` returns is an argument; the thread that it makes is `ctrl_handler`.
unfoldable pub ctrl_start : ℤ → ℤ → Client → ℤ × Client
ctrl_start created socket c =
    ((if is_neg created then negsuc 0 else pos 0), record c { socket = socket })
