-- ===== src/Ctrl/Invitation.antt =====
-- The members that the user invites at the terminal of src/CLIENT/zt_ctrl.c, as the server reads them.
use zam_tok.Prelude.{
  ◌+◌, ◌≤◌, ◌<◌, pos, List, [], ◌∷◌, Option, some, Bytes, codes, ◌≡◌, refl, ◌∙◌, arith, length, All,
}
use zam_tok.Outcome.{Outcome, returns}
use zam_tok.Http.Members.{member_names}
use zam_tok.Ctrl.{Terminal, Client, say, answer, ctrl_read_count}
use zam_tok.Ctrl.Members.{ctrl_request_friend_list, ctrl_read_invite_members}
use zam_tok.Ctrl.Ends.{friend_list-stdin}
use zam_tok.Ctrl.Written.{
  IsName, joined, lines, joined-names, members_loop-names, number_loop_first,
}

-- A question that took the input up to a rest, and whose member list names these members.
abbrev pub Asked : List Bytes → Bytes → Outcome (Option Bytes × Client) → Type 0
Asked ns rest o =
    (d : Client) × (m : Bytes) × (o ≡ returns (some m, d))
    × (d.stdin ≡ rest)
    × (member_names m ≡ ns)

-- Whatever `write` returns: where the user types a number from 1 to 16 and then as many names, each of at
-- most 14 bytes without white space, commas and NUL, and the names with a comma between them are shorter
-- than the array, `ctrl_read_invite_members` returns a member list out of which the server reads exactly
-- these names, in this order, and what follows is left of the input.
pub ctrl_read_invite_members-names :
    (T : Terminal) (ns : List Bytes) (line rest : Bytes) (c : Client)
    → All IsName ns
    → length (joined [] ns) < 256
    → IsName line
    → T.atoi line ≡ pos (length ns)
    → 1 ≤ length ns
    → length ns ≤ 16
    → c.stdin ≡ lines (line ∷ ns) rest
    → Asked ns rest (ctrl_read_invite_members T c)
unfolding ctrl_read_invite_members ctrl_read_count
ctrl_read_invite_members-names T ns line rest c h short p e low up input =
    let d0 = ctrl_request_friend_list T c in
    let d1 : Client = record (say (codes "invite count: ") d0) { stdin = lines ns rest } in
    let (d, runs, left) = members_loop-names ns [] rest d1 h short refl in
    let counted =
      number_loop_first T (length d0.stdin + 1) (codes "invite count: ") line (lines ns rest)
        (length ns) 16 d0 (omega arith) p e low up (friend_list-stdin T c ∙ input) in
    (d, joined [] ns, rw (counted, answer) runs, left, joined-names ns h short)
