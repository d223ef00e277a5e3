-- ===== src/Ctrl/Commands.antt =====
-- The commands of the client's terminal: the interactive functions and `CTRL_proc` of
-- src/CLIENT/zt_ctrl.c.
use zam_tok.Prelude.{
  ℕ, ◌+◌, ℤ, negsuc, is_neg, is_nat, Bool, true, false, ◌&&◌, ◌||◌, List, [], ◌∷◌, ◌++◌, Option,
  none, some, Bytes, codes, ◌==◌, leb, if◌then◌else◌, take,
}
use zam_tok.CString.{str_eq}
use zam_tok.Outcome.{Outcome, returns, and_then}
use zam_tok.Redis.Keys.{User}
use zam_tok.Chat.{
  chat_join, chat_login, chat_create_room, chat_join_room, chat_list_rooms, chat_invite_room,
}
use zam_tok.Ctrl.{
  Terminal, Client, menu_table, help_table, show, say, deliver, Ask, ◌>>=◌, give, ctrl_read_line,
  ctrl_read_room_type,
}
use zam_tok.Ctrl.Members.{
  ctrl_is_logged_in, ctrl_request_friend_list, ctrl_read_members, ctrl_read_invite_members,
}

unfoldable pub to_lower : ℕ → ℕ
to_lower c = if leb (b'A') c && leb c (b'Z') then c + 32 else c

-- `!strcasecmp(a, b)`
unfoldable pub str_case_eq : Bytes → Bytes → Bool
unfolding to_lower
str_case_eq [] [] = true
str_case_eq (x ∷ a) (y ∷ b) = to_lower x == to_lower y && str_case_eq a b
str_case_eq _ _ = false

unfoldable pub ctrl_menu_to_command : Bytes → Bytes
unfolding str_eq
ctrl_menu_to_command cmd =
    if str_eq cmd (codes "1")
    then codes "signup"
    else if str_eq cmd (codes "2")
    then codes "login"
    else if str_eq cmd (codes "3")
    then codes "friends"
    else if str_eq cmd (codes "4")
    then codes "create"
    else if str_eq cmd (codes "5")
    then codes "invite"
    else if str_eq cmd (codes "6")
    then codes "enter"
    else if str_eq cmd (codes "7")
    then codes "list"
    else if str_eq cmd (codes "8")
    then codes "help"
    else if str_eq cmd (codes "9")
    then codes "quit"
    else cmd

-- What `CTRL_proc` compares a word with.
pub data Command : Type 0 where
  menu signup login friends create invite enter list help quit unknown : Command

-- The tests of `CTRL_proc`, in order.
unfoldable pub command_of : Bytes → Command
unfolding str_case_eq
command_of cmd =
    if str_case_eq cmd (codes "menu")
    then menu
    else if str_case_eq cmd (codes "signup")
    then signup
    else if str_case_eq cmd (codes "login")
    then login
    else if str_case_eq cmd (codes "friends")
    then friends
    else if str_case_eq cmd (codes "create")
    then create
    else if str_case_eq cmd (codes "invite")
    then invite
    else if str_case_eq cmd (codes "enter")
    then enter
    else if str_case_eq cmd (codes "list")
    then list
    else if str_case_eq cmd (codes "help")
    then help
    else if str_case_eq cmd (codes "quit") || str_case_eq cmd (codes "exit")
    then quit
    else unknown

-- What is asked for creating and for inviting to a room.
pub record NewRoom : Type 0 where
  pub room_id : Bytes
  pub password : Bytes
  pub room_type : Bytes
  pub members : Bytes

-- The questions of the interactive functions, in order.
unfoldable pub ask_user : Ask User
ask_user = ctrl_read_line (codes "user_id: ") 16 >>= λ user_id.
    ctrl_read_line (codes "name: ") 16 >>= λ name.
    ctrl_read_line (codes "password: ") 16 >>= λ password.
    ctrl_read_line (codes "mdn: ") 16 >>= λ mdn.
    give (record { user_id = user_id; name = name; password = password; mdn = mdn })

-- Two lines: an id or a room, and a password.
unfoldable pub ask_pair : Bytes → ℕ → Ask (Bytes × Bytes)
ask_pair prompt size = ctrl_read_line prompt size >>= λ id.
    ctrl_read_line (codes "password: ") 16 >>= λ password. give (id, password)

-- A message that is sent with what was asked, or a canceled input, which is -1.
abbrev pub asked : {A : Type 0} → Bytes → (A → Client → ℤ × Client) → Option A × Client → ℤ × Client
asked canceled act (none, c) = (negsuc 0, say canceled c)
asked canceled act (some a, c) = act a c

-- `snprintf(g_login_user_id, ...)` where the code is 0
abbrev pub remember : Bytes → ℤ × Client → ℤ × Client
remember user_id (rc, c) = (rc, (if is_nat rc 0 then record c { user_id = take 15 user_id } else c))

module _ (T : Terminal) where
  unfoldable pub ctrl_signup_interactive : Client → Outcome (ℤ × Client)
  unfolding ask_user
  ctrl_signup_interactive c = and_then (ask_user c) (λ out. returns (
      asked (codes "[signup] Input canceled\n") (λ u d. deliver (chat_join T.write d.socket u) d)
        out))

  unfoldable pub ctrl_login_interactive : Client → Outcome (ℤ × Client)
  unfolding ask_pair
  ctrl_login_interactive c = and_then (ask_pair (codes "user_id: ") 16 c) (λ out. returns (
      asked (codes "[login] Input canceled\n")
        (λ p d. remember p.0 (deliver (chat_login T.write d.socket p.0 p.1) d)) out))

  unfoldable pub ask_room : Ask NewRoom
  ask_room = ctrl_read_line (codes "room_id: ") 64 >>= λ room_id.
      ctrl_read_line (codes "password: ") 16 >>= λ password. ctrl_read_room_type >>= λ room_type.
      ctrl_read_members T room_type >>= λ members.
      give (record {
        room_id = room_id;
        password = password;
        room_type = room_type;
        members = members;
      })

  unfoldable pub ctrl_create_interactive : Client → Outcome (ℤ × Client)
  unfolding ask_room
  ctrl_create_interactive c = and_then (ask_room c) (λ out. returns (
      asked (codes "[create] Input canceled\n")
        (λ r d.
          deliver
            (chat_create_room T.write d.socket r.room_id r.password d.user_id r.room_type r.members)
            d)
        out))

  unfoldable pub ask_invitation : Ask (Bytes × Bytes)
  ask_invitation = ctrl_read_line (codes "room_id: ") 64 >>= λ room_id.
      ctrl_read_invite_members T >>= λ members. give (room_id, members)

  unfoldable pub ctrl_invite_interactive : Client → Outcome (ℤ × Client)
  unfolding ask_invitation
  ctrl_invite_interactive c = and_then (ask_invitation c) (λ out. returns (
      asked (codes "[invite] Input canceled\n")
        (λ p d. deliver (chat_invite_room T.write d.socket p.0 d.user_id p.1) d) out))

  unfoldable pub ctrl_enter_interactive : Client → Outcome (ℤ × Client)
  unfolding ask_pair
  ctrl_enter_interactive c = and_then (ask_pair (codes "room_id: ") 64 c) (λ out. returns (
      asked (codes "[enter] Input canceled\n")
        (λ p d. deliver (chat_join_room T.write d.socket p.0 p.1) d) out))

-- The texts that `CTRL_proc` prints for a command: without a socket, without a login, and behind it.
pub record Texts : Type 0 where
  pub closed : Bytes
  pub stranger : Bytes
  pub done : Bytes
  pub failed : Bytes

-- `rc == 0 ? done : failed`; the program goes on.
abbrev pub report : Texts → ℤ × Client → Bool × Client
report t (rc, c) = (true, say (if is_nat rc 0 then t.done else t.failed) c)

abbrev pub go_on : Client → Outcome (Bool × Client)
go_on c = returns (true, c)

-- `if (g_socket_fd < 0) { ...; return; }`
abbrev pub connected : Texts → (Client → Outcome (Bool × Client)) → Client → Outcome (Bool × Client)
connected t act c = elim (is_neg c.socket) [ true ↦ go_on (say t.closed c) | false ↦ act c ]

-- `if (!ctrl_is_logged_in()) { ...; return; }`
abbrev pub logged_in : Texts → (Client → Outcome (Bool × Client)) → Client → Outcome (Bool × Client)
logged_in t act c = elim (ctrl_is_logged_in c) [ true ↦ act c | false ↦ go_on (say t.stranger c) ]

abbrev pub reported : Texts → (Client → Outcome (ℤ × Client)) → Client → Outcome (Bool × Client)
reported t act c = and_then (act c) (λ out. returns (report t out))

-- The texts of each command.
abbrev pub texts : Command → Texts
texts signup = record {
  closed = codes "[signup] Socket not connected\n";
  stranger = [];
  done = codes "[signup] Join request sent\n";
  failed = codes "[signup] Join send fail\n";
}
texts login = record {
  closed = codes "[login] Socket not connected\n";
  stranger = [];
  done = codes "[login] Login request sent\n";
  failed = codes "[login] Login send fail\n";
}
texts friends = record {
  closed = codes "[friends] Socket not connected\n";
  stranger = codes "[friends] Please login first\n";
  done = [];
  failed = [];
}
texts create = record {
  closed = codes "[create] Socket not connected\n";
  stranger = codes "[create] Please login first\n";
  done = codes "[create] Create room request sent\n";
  failed = codes "[create] Create room send fail\n";
}
texts invite = record {
  closed = codes "[invite] Socket not connected\n";
  stranger = codes "[invite] Please login first\n";
  done = codes "[invite] Invite request sent\n";
  failed = codes "[invite] Invite send fail\n";
}
texts enter = record {
  closed = codes "[enter] Socket not connected\n";
  stranger = [];
  done = codes "[enter] Enter room request sent\n";
  failed = codes "[enter] Enter room send fail\n";
}
texts list = record {
  closed = codes "[list] Socket not connected\n";
  stranger = [];
  done = codes "[list] Room list request sent\n";
  failed = codes "[list] Room list send fail\n";
}
texts _ = record { closed = []; stranger = []; done = []; failed = [] }

module _ (T : Terminal) where
  -- A command with its word: whether the program goes on, and the client.
  unfoldable pub run_command : Command → Bytes → Client → Outcome (Bool × Client)
  unfolding ctrl_request_friend_list
  run_command menu word c = go_on (show menu_table c)
  run_command signup word c =
      connected (texts signup) (reported (texts signup) (ctrl_signup_interactive T)) c
  run_command login word c =
      connected (texts login) (reported (texts login) (ctrl_login_interactive T)) c
  run_command friends word c =
      connected (texts friends)
        (logged_in (texts friends) (λ d. go_on (ctrl_request_friend_list T d))) c
  run_command create word c =
      connected (texts create)
        (logged_in (texts create) (reported (texts create) (ctrl_create_interactive T))) c
  run_command invite word c =
      connected (texts invite)
        (logged_in (texts invite) (reported (texts invite) (ctrl_invite_interactive T))) c
  run_command enter word c =
      connected (texts enter) (reported (texts enter) (ctrl_enter_interactive T)) c
  run_command list word c =
      connected (texts list)
        (reported (texts list) (λ d. returns (deliver (chat_list_rooms T.write d.socket) d))) c
  run_command help word c = go_on (show help_table c)
  run_command quit word c = returns (false, say (codes "[CMD_LINE] quit\n") c)
  run_command unknown word c =
      go_on (
        say (codes "[CMD_LINE] unknown command: " ++ (word ++ codes " (try 'menu' or 'help')\n")) c)

  -- `exit(0)` is that the program does not go on.
  unfoldable pub ctrl_proc : List Bytes → Client → Outcome (Bool × Client)
  unfolding command_of ctrl_menu_to_command
  ctrl_proc [] c = go_on c
  ctrl_proc (word ∷ rest) c = run_command (command_of (ctrl_menu_to_command word)) word c
