-- ===== src/Ctrl/Ends.antt =====
-- The terminal of src/CLIENT/zt_ctrl.c comes to an end: each line that is read takes a byte of the input.
use zam_tok.Prelude.{
  ℕ, ◌+◌, zero, suc, ◌≤◌, ◌<◌, ℤ, Bool, true, false, [], ◌∷◌, Option, none, some, Bytes, codes, ◌≡◌,
  inl, inr, refl, ap, subst, arith, Bool-cases, Option-cases, length,
}
use zam_tok.CString.{str_eq}
use zam_tok.Outcome.{Outcome, returns, out_of_fuel, overruns, Returns, Returns-and_then}
use zam_tok.Chat.{chat_list_friends}
use zam_tok.Ctrl.{
  Terminal, Client, say, deliver, either, Ask, answer, ◌>>=◌, give, line_of, fgets, unless_empty,
  ctrl_read_line, room_type_loop, ctrl_read_room_type, within, number_loop, ctrl_read_count,
}
use zam_tok.Ctrl.Members.{
  members_size, ctrl_append_member, taken, members_loop, ctrl_request_friend_list,
  ctrl_read_members, ctrl_read_invite_members,
}

length-line_of : (n : ℕ) (s : Bytes) → length (line_of n s).1 ≤ length s
unfolding line_of
length-line_of zero s = omega arith
length-line_of (suc n) [] = omega arith
length-line_of (suc n) (c ∷ s) = ground (arith, length-line_of n s)

-- What is left of the input: less, if a line was read.
abbrev pub LeavesInput : Client → Option (Bytes × Bytes) → Type 0
LeavesInput c none = Unit
LeavesInput c (some (out, rest)) = length rest < length c.stdin

pub fgets-LeavesInput : (n : ℕ) (c : Client) → LeavesInput c (fgets (suc (suc n)) c.stdin)
unfolding fgets line_of
fgets-LeavesInput n c = by c.stdin refl
  where
    by : (s : Bytes) → c.stdin ≡ s → LeavesInput c (fgets (suc (suc n)) c.stdin)
    by [] e = rw (e, LeavesInput) tt
    by (b ∷ s) e = rw (e, LeavesInput) (ground (arith, e, length-line_of n s))

-- A call leaves no more input than there was, and less where it returns a value.
abbrev pub Took : {A : Type 0} → ℕ → Option A × Client → Type 0
Took n (none, d) = length d.stdin ≤ n
Took n (some a, d) = length d.stdin < n

-- A call leaves at most as much input.
abbrev pub AtMost : {A : Type 0} → ℕ → A × Client → Type 0
AtMost n (a, d) = length d.stdin ≤ n

-- A question ends, and takes input where it returns a value.
abbrev pub Takes : {A : Type 0} → Ask A → Type 0
Takes m = (c : Client) → Returns (m c) (Took (length c.stdin))

unless_empty-Took :
    (n : ℕ) (s : Bytes) (d : Client) → length d.stdin < n → Took n (unless_empty s, d)
unless_empty-Took n [] d h = omega arith
unless_empty-Took n (b ∷ s) d h = h

pub ctrl_read_line-Takes : (prompt : Bytes) (n : ℕ) → Takes (ctrl_read_line prompt (suc (suc n)))
unfolding ctrl_read_line
ctrl_read_line-Takes prompt n c = elim (Option-cases (fgets (suc (suc n)) c.stdin)) [
  | inl e ↦ rw (e, Returns, Took) (omega arith)
  | inr ((out, rest), e) ↦
      rw (e, Returns)
        (unless_empty-Took (length c.stdin) _ (record (say prompt c) { stdin = rest })
          (rw (e, LeavesInput) at (fgets-LeavesInput n c)))
]

-- Questions one behind the other.
module _ {A B : Type 0} (m : Ask A) (f : A → Ask B) (ends : Takes m) where
  answer-Took :
      (n : ℕ)
      → ((a : A) (d : Client) → length d.stdin < n → Returns (f a d) (Took n))
      → (out : Option A × Client) → Took n out
      → Returns (answer out f) (Took n)
  answer-Took n k (none, d) h = h
  answer-Took n k (some a, d) h = k a d h

  pub chain-Returns :
      (c : Client)
      → ((a : A) (d : Client)
          → length d.stdin < length c.stdin
          → Returns (f a d) (Took (length c.stdin)))
      → Returns ((m >>= f) c) (Took (length c.stdin))
  chain-Returns c k =
      Returns-and_then (m c) (λ out. answer out f) (Took (length c.stdin)) (Took (length c.stdin))
        (ends c) (answer-Took (length c.stdin) k)

-- A call that ends within less input ends within more.
Took-more : {A : Type 0} (n k : ℕ) (out : Option A × Client) → n ≤ k → Took n out → Took k out
Took-more n k (none, d) le h = omega arith
Took-more n k (some a, d) le h = omega arith

Returns_more :
    {A : Type 0} (o : Outcome (Option A × Client)) (n k : ℕ)
    → n ≤ k
    → Returns o (Took n)
    → Returns o (Took k)
Returns_more (returns out) n k le h = Took-more n k out le h
Returns_more out_of_fuel n k le h = absurd h
Returns_more overruns n k le h = absurd h

pub chain-Takes :
    {A B : Type 0} (m : Ask A) (f : A → Ask B) → Takes m → ((a : A) → Takes (f a)) → Takes (m >>= f)
chain-Takes m f h k c =
    chain-Returns m f h c
      (λ a d lt. Returns_more (f a d) (length d.stdin) (length c.stdin) (omega arith) (k a d))

-- The last question is followed by its value.
pub give-Took : {A B : Type 0} (m : Ask A) (f : A → B) → Takes m → Takes (m >>= λ a. give (f a))
give-Took m f h c = chain-Returns m (λ a. give (f a)) h c (λ a d lt. lt)

room_type_loop-Returns :
    (fuel : ℕ) (c : Client)
    → length c.stdin < fuel
    → Returns (room_type_loop fuel c) (Took (length c.stdin))
unfolding room_type_loop
room_type_loop-Returns zero c h = absurd (omega arith)
room_type_loop-Returns (suc fuel) c h =
    chain-Returns (ctrl_read_line (codes "room type (1=1:1, 2=1:N): ") 32) _
      (ctrl_read_line-Takes _ 30) c
      (λ buf d lt. elim (Bool-cases (either (codes "1") (codes "1:1") buf)) [
        | inl e ↦ rw (e, Returns) lt
        | inr e ↦ elim (Bool-cases (either (codes "2") (codes "1:N") buf)) [
          | inl e' ↦ rw (e, e', Returns) lt
          | inr e' ↦
              let again = say (codes "[create] Invalid room type\n") d in
              rw (e, e', Returns)
                (Returns_more (room_type_loop fuel again) (length d.stdin) (length c.stdin)
                  (omega arith) (room_type_loop-Returns fuel again (omega arith)))
        ]
      ])

number_loop-Returns :
    (T : Terminal) (fuel : ℕ) (prompt : Bytes) (low high : ℕ) (c : Client)
    → length c.stdin < fuel
    → Returns (number_loop T fuel prompt low high c) (Took (length c.stdin))
unfolding number_loop
number_loop-Returns T zero prompt low high c h = absurd (omega arith)
number_loop-Returns T (suc fuel) prompt low high c h =
    chain-Returns (ctrl_read_line prompt 32) _ (ctrl_read_line-Takes prompt 30) c (λ buf d lt.
      elim (Option-cases (within low high (T.atoi buf))) [
        | inr (n, e) ↦ rw (e, Returns) lt
        | inl e ↦
            rw (e, Returns)
              (Returns_more (number_loop T fuel prompt low high _) (length d.stdin) (length c.stdin)
                (omega arith) (number_loop-Returns T fuel prompt low high _ (omega arith)))
      ])

pub ctrl_read_room_type-Takes : Takes ctrl_read_room_type
unfolding ctrl_read_room_type
ctrl_read_room_type-Takes c = room_type_loop-Returns (length c.stdin + 1) c (omega arith)

taken-Took :
    (out : Bool × Bytes) (k : ℕ) (d : Client) → length d.stdin < k → Returns (taken out d) (Took k)
taken-Took (true, members) k d h = h
taken-Took (false, members) k d h = omega arith

append-Takes :
    (members : Bytes)
    → Takes (
        ctrl_read_line (codes "friend user_id: ") 16 >>= λ member.
        taken (ctrl_append_member members members_size member))
append-Takes members c =
    chain-Returns (ctrl_read_line (codes "friend user_id: ") 16)
      (λ member. taken (ctrl_append_member members members_size member))
      (ctrl_read_line-Takes (codes "friend user_id: ") 14) c
      (λ member d lt.
        taken-Took (ctrl_append_member members members_size member) (length c.stdin) d lt)

pub members_loop-Took :
    (n : ℕ) (members : Bytes) (k : ℕ) (c : Client)
    → length c.stdin < k
    → Returns (members_loop n members c) (Took k)
unfolding members_loop
members_loop-Took zero members k c h = h
members_loop-Took (suc n) members k c h =
    Returns_more (members_loop (suc n) members c) (length c.stdin) k (omega arith) (
      chain-Returns _ (members_loop n) (append-Takes members) c
        (λ m d lt. members_loop-Took n m (length c.stdin) d lt))

members_loop-Takes : (n : ℕ) (members : Bytes) → Takes (members_loop (suc n) members)
unfolding members_loop
members_loop-Takes n members c =
    chain-Returns _ (members_loop n) (append-Takes members) c
      (λ m d lt. members_loop-Took n m (length c.stdin) d lt)

-- The senders leave the input as it is.
pub deliver-stdin : (out : ℤ × Option Bytes) (c : Client) → (deliver out c).1.stdin ≡ c.stdin
deliver-stdin (rc, none) c = refl
deliver-stdin (rc, some m) c = refl

module _ (T : Terminal) where
  pub friend_list-stdin : (c : Client) → (ctrl_request_friend_list T c).stdin ≡ c.stdin
  unfolding ctrl_request_friend_list
  friend_list-stdin c =
      ground (arith, deliver-stdin (chat_list_friends T.write c.socket c.user_id) c)

  ctrl_read_count-Takes :
      (prompt : Bytes) (low high : ℕ) → Takes (ctrl_read_count T prompt low high)
  unfolding ctrl_read_count
  ctrl_read_count-Takes prompt low high c =
      number_loop-Returns T (length c.stdin + 1) prompt low high c (omega arith)

  pub ctrl_read_invite_members-Takes : Takes (ctrl_read_invite_members T)
  unfolding ctrl_read_invite_members
  ctrl_read_invite_members-Takes c =
      let d = ctrl_request_friend_list T c in
      subst (λ n. Returns (ctrl_read_invite_members T c) (Took n)) (ap length (friend_list-stdin c))
        (chain-Returns (ctrl_read_count T (codes "invite count: ") 1 16) (λ n. members_loop n [])
          (ctrl_read_count-Takes (codes "invite count: ") 1 16) d
          (λ n e lt. members_loop-Took n [] (length d.stdin) e lt))

  pub ctrl_read_members-Takes : (room_type : Bytes) → Takes (ctrl_read_members T room_type)
  unfolding ctrl_read_members
  ctrl_read_members-Takes room_type c =
      let d = ctrl_request_friend_list T c in
      subst (λ n. Returns (ctrl_read_members T room_type c) (Took n))
        (ap length (friend_list-stdin c))
        (elim (Bool-cases (str_eq room_type (codes "1:1"))) [
          | inl e ↦ rw (e, Returns) (members_loop-Takes 0 [] d)
          | inr e ↦
              rw (e, Returns)
                (chain-Returns (ctrl_read_count T (codes "member count: ") 1 16)
                  (λ n. members_loop n []) (ctrl_read_count-Takes (codes "member count: ") 1 16) d
                  (λ n e lt. members_loop-Took n [] (length d.stdin) e lt))
        ])
