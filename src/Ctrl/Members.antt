-- ===== src/Ctrl/Members.antt =====
-- Reading a member list: `ctrl_append_member`, `ctrl_read_members` and `ctrl_read_invite_members` of
-- src/CLIENT/zt_ctrl.c.
use zam_tok.Prelude.{
  ℕ, zero, suc, ◌-◌, is_neg, is_nat, Bool, true, false, not, ◌&&◌, [], ◌∷◌, ◌++◌, none, some, Bytes,
  codes, ltb, if◌then◌else◌, length,
}
use zam_tok.CString.{str_eq, fit}
use zam_tok.Outcome.{returns}
use zam_tok.Chat.{chat_list_friends}
use zam_tok.Ctrl.{Terminal, Client, say, deliver, Ask, ◌>>=◌, give, ctrl_read_line, ctrl_read_count}

-- `strlen(members) > 0 ? "," : ""`, and the member
abbrev pub appended : Bytes → Bytes → Bytes
appended [] member = member
appended (c ∷ s) member = codes "," ++ member

-- Whether the member was appended, and the array.
unfoldable pub ctrl_append_member : Bytes → ℕ → Bytes → Bool × Bytes
unfolding fit
ctrl_append_member members size [] = (false, members)
ctrl_append_member members size (c ∷ member) =
    let piece = appended members (c ∷ member) in
    (ltb (length piece) (size - length members), members ++ fit (size - length members) piece)

-- `ctrl_is_logged_in`
abbrev pub ctrl_is_logged_in : Client → Bool
ctrl_is_logged_in c = elim c.user_id [ [] ↦ false | b ∷ s ↦ true ]

-- `ROOM_MEMBERS_MAX_LEN`
abbrev pub members_size : ℕ
members_size = 256

abbrev pub taken : Bool × Bytes → Ask Bytes
taken (true, members) c = returns (some members, c)
taken (false, members) c = returns (none, c)

-- The loop that reads as many members.
unfoldable pub members_loop : ℕ → Bytes → Ask Bytes
unfolding ctrl_append_member
members_loop zero members = give members
members_loop (suc count) members =
    ctrl_read_line (codes "friend user_id: ") 16
    >>= (λ member. taken (ctrl_append_member members members_size member))
    >>= members_loop count

module _ (T : Terminal) where
  unfoldable pub ctrl_request_friend_list : Client → Client
  ctrl_request_friend_list c =
      let out = deliver (chat_list_friends T.write c.socket c.user_id) c in
      let told =
        if is_nat out.0 0
        then say (codes "[friends] Friend list request sent\n") out.1
        else out.1 in
      if not (is_neg c.socket) && ctrl_is_logged_in c then told else c

  -- `MAX_MEMBER_INPUT` is 16.
  unfoldable pub ctrl_read_members : Bytes → Ask Bytes
  unfolding str_eq
  ctrl_read_members room_type c =
      let d = ctrl_request_friend_list c in
      elim (str_eq room_type (codes "1:1")) [
        | true ↦ members_loop 1 [] d
        | false ↦ (ctrl_read_count T (codes "member count: ") 1 16 >>= (λ n. members_loop n [])) d
      ]

  unfoldable pub ctrl_read_invite_members : Ask Bytes
  ctrl_read_invite_members c =
      (ctrl_read_count T (codes "invite count: ") 1 16 >>= (λ n. members_loop n []))
        (ctrl_request_friend_list c)
