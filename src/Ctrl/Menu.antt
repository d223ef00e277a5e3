-- ===== src/Ctrl/Menu.antt =====
-- The two tables of src/CLIENT/zt_ctrl.c: the menu, and the commands that `help` lists.
use zam_tok.Prelude.{
  ℕ, Bool, true, false, List, [], ◌∷◌, Option, none, some, Bytes, codes, if◌then◌else◌,
}
use zam_tok.Ctrl.Commands.{ctrl_menu_to_command, Command, unknown, command_of}

-- `st_commands_t`; a name that is NULL is `none`.
pub record StCommand : Type 0 where
  pub name : Option Bytes
  pub cmd : ℕ
  pub doc : Bytes

abbrev entry : Bytes → ℕ → Bytes → StCommand
entry name cmd doc = record { name = some name; cmd = cmd; doc = doc }

abbrev pub gp_commands : List StCommand
gp_commands =
    entry (codes "[common]") 0 []
    ∷ entry (codes "menu") 0 (codes "Interactive menu")
    ∷ entry (codes "help") 0 (codes "This Screen")
    ∷ entry (codes "signup") 4 (codes "Interactive user signup")
    ∷ entry (codes "login") 2 (codes "Interactive user login")
    ∷ entry (codes "friends") 0 (codes "Show friend list")
    ∷ entry (codes "create") 4 (codes "Interactive room create")
    ∷ entry (codes "invite") 2 (codes "Interactive room invite")
    ∷ entry (codes "enter") 2 (codes "Enter room")
    ∷ entry (codes "list") 0 (codes "Show room list")
    ∷ entry (codes "history") 0 (codes "History")
    ∷ entry (codes "log") 1 (codes "on/off : Log (default off)")
    ∷ entry (codes "quit") 1 (codes "Program quit")
    ∷ record { name = none; cmd = 0; doc = [] }
    ∷ []

-- The lines of `ctrl_show_menu` behind the first.
abbrev pub menu_lines : List (Bytes × Bytes)
menu_lines =
    (codes "1", codes "signup")
    ∷ (codes "2", codes "login")
    ∷ (codes "3", codes "friends")
    ∷ (codes "4", codes "create room")
    ∷ (codes "5", codes "invite room")
    ∷ (codes "6", codes "enter room")
    ∷ (codes "7", codes "list rooms")
    ∷ (codes "8", codes "help")
    ∷ (codes "9", codes "quit")
    ∷ []

-- The lines that `help` prints behind the first: `while (gp_commands[i].name)`.
abbrev pub help_lines : List StCommand → List (Bytes × Bytes)
help_lines [] = []
help_lines (c ∷ cs) = elim c.name [ none ↦ [] | some name ↦ (name, c.doc) ∷ help_lines cs ]

-- Whether `CTRL_proc` knows what a word leads to.
abbrev pub is_known : Command → Bool
is_known unknown = false
is_known _ = true

-- The words that it does not know.
abbrev pub strangers : List (Bytes × Bytes) → List Bytes
strangers [] = []
strangers ((word, text) ∷ rest) =
    let more = strangers rest in
    if is_known (command_of (ctrl_menu_to_command word)) then more else word ∷ more
