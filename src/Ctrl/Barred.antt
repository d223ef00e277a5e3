-- ===== src/Ctrl/Barred.antt =====
-- Commands of the terminal of src/CLIENT/zt_ctrl.c that do nothing: without a socket, or without a login.
use zam_tok.Prelude.{is_neg, Bool, true, List, [], ◌∷◌, Bytes, ◌≡◌, ◌⊎◌, inl, inr, refl, Bool-cases}
use zam_tok.Outcome.{Outcome, Returns}
use zam_tok.Ctrl.{Terminal, Client}
use zam_tok.Ctrl.Members.{ctrl_request_friend_list}
use zam_tok.Ctrl.Commands.{
  Command, menu, signup, login, friends, create, invite, enter, list, help, quit, unknown, Texts,
  texts, command_of, ctrl_menu_to_command, connected, logged_in, run_command, ctrl_proc, go_on,
  reported, ctrl_create_interactive, ctrl_invite_interactive,
}

-- Nothing was read, nothing sent, and nobody logged in or out.
abbrev pub Untouched : Client → Bool × Client → Type 0
Untouched c (goes_on, d) = (d.stdin ≡ c.stdin) × (d.sent ≡ c.sent) × (d.user_id ≡ c.user_id)

-- Which commands ask for a login.
abbrev pub NeedsLogin : Command → Type 0
NeedsLogin menu = ⊥
NeedsLogin signup = ⊥
NeedsLogin login = ⊥
NeedsLogin friends = Unit
NeedsLogin create = Unit
NeedsLogin invite = Unit
NeedsLogin enter = ⊥
NeedsLogin list = ⊥
NeedsLogin help = ⊥
NeedsLogin quit = ⊥
NeedsLogin unknown = ⊥

-- There is no socket, or the command asks for a login and there is none.
abbrev pub Barred : Client → Command → Type 0
Barred c cmd = (is_neg c.socket ≡ true) ⊎ (NeedsLogin cmd × (c.user_id ≡ []))

stranger-Untouched :
    (t : Texts) (act : Client → Outcome (Bool × Client)) (c : Client)
    → c.user_id ≡ []
    → Returns (connected t (logged_in t act) c) (Untouched c)
stranger-Untouched t act c e = elim (Bool-cases (is_neg c.socket)) [
  | inl closed ↦ rw (closed, Returns) (refl, refl, refl)
  | inr up ↦ rw (up, e, Returns) (refl, refl, refl)
]

run_command-Untouched :
    (T : Terminal) (cmd : Command) (word : Bytes) (c : Client)
    → Barred c cmd
    → Returns (run_command T cmd word c) (Untouched c)
unfolding run_command
run_command-Untouched T menu word c h = (refl, refl, refl)
run_command-Untouched T help word c h = (refl, refl, refl)
run_command-Untouched T quit word c h = (refl, refl, refl)
run_command-Untouched T unknown word c h = (refl, refl, refl)
run_command-Untouched T signup word c (inl e) = rw (e, Returns) (refl, refl, refl)
run_command-Untouched T signup word c (inr (l, e)) = absurd l
run_command-Untouched T login word c (inl e) = rw (e, Returns) (refl, refl, refl)
run_command-Untouched T login word c (inr (l, e)) = absurd l
run_command-Untouched T enter word c (inl e) = rw (e, Returns) (refl, refl, refl)
run_command-Untouched T enter word c (inr (l, e)) = absurd l
run_command-Untouched T list word c (inl e) = rw (e, Returns) (refl, refl, refl)
run_command-Untouched T list word c (inr (l, e)) = absurd l
run_command-Untouched T friends word c (inl e) = rw (e, Returns) (refl, refl, refl)
run_command-Untouched T friends word c (inr (l, e)) =
    stranger-Untouched (texts friends) (λ d. go_on (ctrl_request_friend_list T d)) c e
run_command-Untouched T create word c (inl e) = rw (e, Returns) (refl, refl, refl)
run_command-Untouched T create word c (inr (l, e)) =
    stranger-Untouched (texts create) (reported (texts create) (ctrl_create_interactive T)) c e
run_command-Untouched T invite word c (inl e) = rw (e, Returns) (refl, refl, refl)
run_command-Untouched T invite word c (inr (l, e)) =
    stranger-Untouched (texts invite) (reported (texts invite) (ctrl_invite_interactive T)) c e

-- Without a socket no command reads, sends or logs in, and neither does one that asks for a login, be it
-- by its name or by its number in the menu, while nobody is logged in.
pub ctrl_proc-Untouched :
    (T : Terminal) (word : Bytes) (rest : List Bytes) (c : Client)
    → Barred c (command_of (ctrl_menu_to_command word))
    → Returns (ctrl_proc T (word ∷ rest) c) (Untouched c)
unfolding ctrl_proc
ctrl_proc-Untouched T word rest c h =
    run_command-Untouched T (command_of (ctrl_menu_to_command word)) word c h
