-- ===== src/Tests/Terminal.antt =====
-- The theorems about the client's terminal at concrete inputs.
use zam_tok.CString.{str_eq}
use zam_tok.Ctrl.Commands.{ctrl_menu_to_command, command_of, str_case_eq}
use zam_tok.Ctrl.Menu.{strangers, menu_lines, help_lines, gp_commands}
use zam_tok.Prelude.{
  pos, List, [], ◌∷◌, ◌++◌, some, Bytes, codes, ◌≡◌, inr, refl, sym, subst, arith, if◌then◌else◌,
  length, take,
}
use zam_tok.CString.{str_eq, is_ws, tokens}
use zam_tok.CString.Search.{Free}
use zam_tok.Outcome.{returns, Returns}
use zam_tok.Ctrl.{Terminal, Client, say, ctrl_read_line}
use zam_tok.Ctrl.Members.{ctrl_read_invite_members}
use zam_tok.Ctrl.Commands.{
  ctrl_menu_to_command, command_of, ctrl_proc, invite, str_case_eq, to_lower,
}
use zam_tok.Ctrl.Handler.{parse_cmd_line, ctrl_handler}
use zam_tok.Ctrl.Parsed.{parse_cmd_line-tokens}
use zam_tok.Ctrl.Finished.{Finished, ctrl_handler-Finished}
use zam_tok.Ctrl.Lines.{left_over, ctrl_read_line_lem}
use zam_tok.Ctrl.Barred.{Barred, NeedsLogin, Untouched, ctrl_proc-Untouched}
use zam_tok.Ctrl.Written.{IsName, lines}
use zam_tok.Ctrl.Invitation.{Asked, ctrl_read_invite_members-names}

abbrev terminal : Terminal
terminal = record {
  write = λ fd bytes. pos (length bytes);
  atoi = λ s. if str_eq s (codes "2") then pos 2 else pos 0;
}

abbrev typing : Bytes → Client
typing input = record {
  stdin = input;
  user_id = codes "alice";
  socket = pos 4;
  sent = [];
  shown = [];
}

abbrev stranger : Client
stranger = record (typing (codes "chess\n")) { user_id = [] }

ctrl_handler-Finished_example :
    Returns
      (ctrl_handler terminal (typing (codes "invite\nchess\n2\nbob\ncarol\n")))
      (Finished terminal)
ctrl_handler-Finished_example =
    ctrl_handler-Finished terminal (typing (codes "invite\nchess\n2\nbob\ncarol\n"))

parse_cmd_line-tokens_example :
    parse_cmd_line 2 (codes " enter  chess now\n")
    ≡ take 2 (tokens is_ws (codes " enter  chess now\n"))
parse_cmd_line-tokens_example = parse_cmd_line-tokens 2 (codes " enter  chess now\n")

-- An id of fifteen bytes.
abbrev long_id : Bytes
long_id = codes "alexander_bauer"

long_id-Free : Free (b'\n') long_id × Free 0 long_id
long_id-Free = ground arith

ctrl_read_line_lem_example :
    ctrl_read_line (codes "user_id: ") 16 (typing (long_id ++ b'\n' ∷ codes "pw\n"))
    ≡ returns (
      some (take 15 long_id),
      record (say (codes "user_id: ") (typing (long_id ++ b'\n' ∷ codes "pw\n"))) {
        stdin = left_over 15 long_id (codes "pw\n");
      },
    )
ctrl_read_line_lem_example =
    ctrl_read_line_lem (codes "user_id: ") 16 long_id (codes "pw\n")
      (typing (long_id ++ b'\n' ∷ codes "pw\n")) (omega arith) long_id-Free.0 long_id-Free.1
      (omega arith) refl

invites : command_of (ctrl_menu_to_command (codes "5")) ≡ invite
unfolding command_of ctrl_menu_to_command str_eq str_case_eq to_lower
invites = refl

stranger-Barred : Barred stranger (command_of (ctrl_menu_to_command (codes "5")))
stranger-Barred = inr (subst NeedsLogin (sym invites) tt, refl)

ctrl_proc-Untouched_example :
    Returns (ctrl_proc terminal (codes "5" ∷ []) stranger) (Untouched stranger)
ctrl_proc-Untouched_example = ctrl_proc-Untouched terminal (codes "5") [] stranger stranger-Barred

bob-IsName : IsName (codes "bob")
unfolding is_ws
bob-IsName = record { given = omega arith; short = omega arith; plain = ground arith }

carol-IsName : IsName (codes "carol")
unfolding is_ws
carol-IsName = record { given = omega arith; short = omega arith; plain = ground arith }

two-IsName : IsName (codes "2")
unfolding is_ws
two-IsName = record { given = omega arith; short = omega arith; plain = ground arith }

two_counted : terminal.atoi (codes "2") ≡ pos 2
unfolding str_eq
two_counted = refl

abbrev invited : List Bytes
invited = codes "bob" ∷ codes "carol" ∷ []

ctrl_read_invite_members-names_example :
    Asked invited
      (codes "list\n")
      (ctrl_read_invite_members terminal (typing (lines (codes "2" ∷ invited) (codes "list\n"))))
ctrl_read_invite_members-names_example =
    ctrl_read_invite_members-names terminal invited (codes "2") (codes "list\n")
      (typing (lines (codes "2" ∷ invited) (codes "list\n"))) (bob-IsName, (carol-IsName, tt))
      (omega arith) two-IsName two_counted (omega arith) (omega arith) refl

-- Every number of the menu leads to a command.
menu-known : strangers menu_lines ≡ []
unfolding command_of ctrl_menu_to_command str_case_eq str_eq
menu-known = refl

-- Of the commands that `help` lists, `CTRL_proc` does not know the heading, `history` and `log`.
help-strangers :
    strangers (help_lines gp_commands) ≡ codes "[common]" ∷ codes "history" ∷ codes "log" ∷ []
unfolding command_of ctrl_menu_to_command str_case_eq str_eq
help-strangers = refl
