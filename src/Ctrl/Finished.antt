-- ===== src/Ctrl/Finished.antt =====
-- Every command of the terminal of src/CLIENT/zt_ctrl.c comes to an end, and so does its loop.
use zam_tok.Prelude.{
  ℕ, ◌+◌, zero, suc, ◌<◌, ℤ, is_neg, Bool, true, false, List, [], ◌∷◌, Option, none, some, Bytes,
  codes, ◌≡◌, inl, inr, refl, ap, ◌∙◌, arith, Bool-cases, Option-cases, length, List-cases,
}
use zam_tok.Outcome.{Outcome, returns, and_then, Returns, Returns-and_then}
use zam_tok.Chat.{
  chat_join, chat_login, chat_create_room, chat_join_room, chat_list_rooms, chat_invite_room,
}
use zam_tok.Ctrl.{Terminal, Client, menu_table, show, deliver, Ask, fgets}
use zam_tok.Ctrl.Members.{ctrl_is_logged_in, ctrl_request_friend_list}
use zam_tok.Ctrl.Commands.{
  ask_user, ask_pair, asked, remember, ctrl_signup_interactive, ctrl_login_interactive, ask_room,
  ctrl_create_interactive, ask_invitation, ctrl_invite_interactive, ctrl_enter_interactive, Texts,
  report, go_on, connected, logged_in, reported, texts, Command, command_of, ctrl_menu_to_command,
  run_command, ctrl_proc, menu, signup, login, friends, create, invite, enter, list, help, quit,
  unknown,
}
use zam_tok.Ctrl.Handler.{parse_cmd_line, handler_loop, ctrl_handler}
use zam_tok.Ctrl.Ends.{
  LeavesInput, Took, AtMost, Takes, ctrl_read_line-Takes, chain-Takes, give-Took,
  ctrl_read_room_type-Takes, deliver-stdin, friend_list-stdin, ctrl_read_invite_members-Takes,
  ctrl_read_members-Takes, fgets-LeavesInput,
}

ask_user-Takes : Takes ask_user
unfolding ask_user
ask_user-Takes = chain-Takes _ _ (ctrl_read_line-Takes (codes "user_id: ") 14) (λ user_id.
    chain-Takes _ _ (ctrl_read_line-Takes (codes "name: ") 14) (λ name.
      chain-Takes _ _ (ctrl_read_line-Takes (codes "password: ") 14)
        (λ password. give-Took _ _ (ctrl_read_line-Takes (codes "mdn: ") 14))))

ask_pair-Takes : (prompt : Bytes) (n : ℕ) → Takes (ask_pair prompt (suc (suc n)))
unfolding ask_pair
ask_pair-Takes prompt n =
    chain-Takes _ _ (ctrl_read_line-Takes prompt n)
      (λ id. give-Took _ _ (ctrl_read_line-Takes (codes "password: ") 14))

-- What is done with the answers leaves the input as it is.
asked-AtMost :
    {A : Type 0} (canceled : Bytes) (act : A → Client → ℤ × Client) (n : ℕ)
    → ((a : A) (d : Client) → (act a d).1.stdin ≡ d.stdin)
    → (out : Option A × Client) → Took n out
    → AtMost n (asked canceled act out)
asked-AtMost canceled act n k (none, d) h = h
asked-AtMost canceled act n k (some a, d) h = omega (arith, ap length (k a d))

-- Questions, and what is done with their answers.
interactive :
    {A : Type 0} (m : Ask A) (canceled : Bytes) (act : A → Client → ℤ × Client) (c : Client)
    → Takes m
    → ((a : A) (d : Client) → (act a d).1.stdin ≡ d.stdin)
    → Returns (and_then (m c) (λ out. returns (asked canceled act out))) (AtMost (length c.stdin))
interactive m canceled act c h k =
    Returns-and_then (m c) _ (Took (length c.stdin)) (AtMost (length c.stdin)) (h c)
      (asked-AtMost canceled act (length c.stdin) k)

remember-stdin : (id : Bytes) (out : ℤ × Client) → (remember id out).1.stdin ≡ out.1.stdin
remember-stdin id (rc, c) = ground arith

report-AtMost : (t : Texts) (n : ℕ) (out : ℤ × Client) → AtMost n out → AtMost n (report t out)
report-AtMost t n (rc, c) h = h

-- An action that ends.
abbrev Stops : {A : Type 0} → (Client → Outcome (A × Client)) → Type 0
Stops act = (c : Client) → Returns (act c) (AtMost (length c.stdin))

reported-Stops :
    (t : Texts) (act : Client → Outcome (ℤ × Client)) → Stops act → Stops (reported t act)
reported-Stops t act h c =
    Returns-and_then (act c) _ (AtMost (length c.stdin)) _ (h c) (report-AtMost t (length c.stdin))

connected-Stops :
    (t : Texts) (act : Client → Outcome (Bool × Client)) → Stops act → Stops (connected t act)
connected-Stops t act h c = elim (Bool-cases (is_neg c.socket)) [
  | inl e ↦ rw (e, Returns) (omega arith)
  | inr e ↦ rw (e, Returns) (h c)
]

logged_in-Stops :
    (t : Texts) (act : Client → Outcome (Bool × Client)) → Stops act → Stops (logged_in t act)
logged_in-Stops t act h c = elim (Bool-cases (ctrl_is_logged_in c)) [
  | inl e ↦ rw (e, Returns) (h c)
  | inr e ↦ rw (e, Returns) (omega arith)
]

fgets-none : (n : ℕ) (s : Bytes) → fgets n s ≡ none → s ≡ []
unfolding fgets
fgets-none n [] e = refl
fgets-none n (c ∷ s) e = absurd (cc)

module _ (T : Terminal) where
  signup-Stops : Stops (ctrl_signup_interactive T)
  unfolding ctrl_signup_interactive
  signup-Stops c =
      interactive ask_user _ _ c ask_user-Takes
        (λ u d. deliver-stdin (chat_join T.write d.socket u) d)

  login-Stops : Stops (ctrl_login_interactive T)
  unfolding ctrl_login_interactive
  login-Stops c =
      interactive (ask_pair (codes "user_id: ") 16) (codes "[login] Input canceled\n")
        (λ p d. remember p.0 (deliver (chat_login T.write d.socket p.0 p.1) d)) c
        (ask_pair-Takes (codes "user_id: ") 14)
        (λ p d.
          remember-stdin p.0 (deliver (chat_login T.write d.socket p.0 p.1) d)
          ∙ deliver-stdin (chat_login T.write d.socket p.0 p.1) d)

  enter-Stops : Stops (ctrl_enter_interactive T)
  unfolding ctrl_enter_interactive
  enter-Stops c =
      interactive (ask_pair (codes "room_id: ") 64) _ _ c (ask_pair-Takes (codes "room_id: ") 62)
        (λ p d. deliver-stdin (chat_join_room T.write d.socket p.0 p.1) d)

  ask_invitation-Takes : Takes (ask_invitation T)
  unfolding ask_invitation
  ask_invitation-Takes =
      chain-Takes _ _ (ctrl_read_line-Takes (codes "room_id: ") 62)
        (λ room_id. give-Took _ _ (ctrl_read_invite_members-Takes T))

  invite-Stops : Stops (ctrl_invite_interactive T)
  unfolding ctrl_invite_interactive
  invite-Stops c =
      interactive (ask_invitation T) _ _ c ask_invitation-Takes
        (λ p d. deliver-stdin (chat_invite_room T.write d.socket p.0 d.user_id p.1) d)

  ask_room-Takes : Takes (ask_room T)
  unfolding ask_room
  ask_room-Takes = chain-Takes _ _ (ctrl_read_line-Takes (codes "room_id: ") 62) (λ room_id.
      chain-Takes _ _ (ctrl_read_line-Takes (codes "password: ") 14) (λ password.
        chain-Takes _ _ ctrl_read_room_type-Takes
          (λ room_type. give-Took _ _ (ctrl_read_members-Takes T room_type))))

  create-Stops : Stops (ctrl_create_interactive T)
  unfolding ctrl_create_interactive
  create-Stops c = interactive (ask_room T) _ _ c ask_room-Takes (λ r d.
      deliver-stdin
        (chat_create_room T.write d.socket r.room_id r.password d.user_id r.room_type r.members) d)

  abbrev ask_friends : Client → Outcome (Bool × Client)
  ask_friends d = go_on (ctrl_request_friend_list T d)

  abbrev ask_rooms : Client → Outcome (ℤ × Client)
  ask_rooms d = returns (deliver (chat_list_rooms T.write d.socket) d)

  friends-Stops : Stops ask_friends
  friends-Stops d = omega (arith, ap length (friend_list-stdin T d))

  list-Stops : Stops ask_rooms
  list-Stops d = omega (arith, ap length (deliver-stdin (chat_list_rooms T.write d.socket) d))

  run_command-Stops : (cmd : Command) (word : Bytes) → Stops (run_command T cmd word)
  unfolding run_command
  run_command-Stops menu word c = omega arith
  run_command-Stops signup word c =
      connected-Stops (texts signup) _ (reported-Stops (texts signup) _ signup-Stops) c
  run_command-Stops login word c =
      connected-Stops (texts login) _ (reported-Stops (texts login) _ login-Stops) c
  run_command-Stops friends word c =
      connected-Stops (texts friends) _ (logged_in-Stops (texts friends) ask_friends friends-Stops)
        c
  run_command-Stops create word c =
      connected-Stops (texts create) _
        (logged_in-Stops (texts create) _ (reported-Stops (texts create) _ create-Stops)) c
  run_command-Stops invite word c =
      connected-Stops (texts invite) _
        (logged_in-Stops (texts invite) _ (reported-Stops (texts invite) _ invite-Stops)) c
  run_command-Stops enter word c =
      connected-Stops (texts enter) _ (reported-Stops (texts enter) _ enter-Stops) c
  run_command-Stops list word c =
      connected-Stops (texts list) (reported (texts list) ask_rooms)
        (reported-Stops (texts list) ask_rooms list-Stops) c
  run_command-Stops help word c = omega arith
  run_command-Stops quit word c = omega arith
  run_command-Stops unknown word c = omega arith

  ctrl_proc-Stops : (argv : List Bytes) → Stops (ctrl_proc T argv)
  unfolding ctrl_proc
  ctrl_proc-Stops [] c = omega arith
  ctrl_proc-Stops (word ∷ rest) c =
      run_command-Stops (command_of (ctrl_menu_to_command word)) word c

  -- What follows a line with a command.
  abbrev after_command : ℕ → Bool × Client → Outcome (Bool × Client)
  after_command fuel out = elim out.0 [ true ↦ handler_loop T fuel out.1 | false ↦ returns out ]

  -- The loop stopped before the end of the input only with the program.
  abbrev pub Finished : Bool × Client → Type 0
  Finished (goes_on, d) = (goes_on ≡ true) → d.stdin ≡ []

  after_command-Finished :
      (fuel : ℕ) (out : Bool × Client)
      → (length out.1.stdin < fuel → Returns (handler_loop T fuel out.1) Finished)
      → length out.1.stdin < fuel
      → Returns (after_command fuel out) Finished
  after_command-Finished fuel (true, d) k lt = k lt
  after_command-Finished fuel (false, d) k lt = λ e. absurd (cc)

  line-Finished :
      (fuel : ℕ) (argv : List Bytes) (d : Client)
      → ((d : Client) → length d.stdin < fuel → Returns (handler_loop T fuel d) Finished)
      → length d.stdin < fuel
      → Returns (and_then (ctrl_proc T argv d) (after_command fuel)) Finished
  line-Finished fuel argv d k lt =
      Returns-and_then (ctrl_proc T argv d) (after_command fuel) (AtMost (length d.stdin)) Finished
        (ctrl_proc-Stops argv d)
        (λ out h. after_command-Finished fuel out (k out.1) (omega (arith, h)))

  handler_loop-Finished :
      (fuel : ℕ) (c : Client) → length c.stdin < fuel → Returns (handler_loop T fuel c) Finished
  unfolding handler_loop
  handler_loop-Finished zero c h = absurd (omega arith)
  handler_loop-Finished (suc fuel) c h = elim (Option-cases (fgets 512 c.stdin)) [
    | inl e ↦ rw (e, Returns) (λ goes_on. fgets-none 512 c.stdin e)
    | inr ((line, rest), e) ↦
        let less : length rest < length c.stdin =
          rw (e, LeavesInput) at (fgets-LeavesInput 510 c) in
        elim (List-cases (parse_cmd_line 32 line)) [
          | inl e' ↦ rw (e, e', Returns) (handler_loop-Finished fuel _ (omega arith))
          | inr (word, words, e') ↦
              rw (e, e', Returns)
                (line-Finished fuel (word ∷ words) _ (handler_loop-Finished fuel) (omega arith))
        ]
  ]

  -- `CTRL_handler` comes to an end on every input, whatever `write` and `atoi` return: each line takes a
  -- byte at least of the input, so that as many rounds as there are bytes, and one more, are enough for
  -- it and for the loops of its questions. It has read the whole input then, unless the user quit.
  pub ctrl_handler-Finished : (c : Client) → Returns (ctrl_handler T c) Finished
  unfolding ctrl_handler
  ctrl_handler-Finished c =
      handler_loop-Finished (length c.stdin + 1) (show menu_table c) (omega arith)
