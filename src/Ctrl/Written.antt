-- ===== src/Ctrl/Written.antt =====
-- The member list that the user types at the terminal of src/CLIENT/zt_ctrl.c, as the server reads it.
use zam_tok.Prelude.{
  ℕ, zero, suc, ◌-◌, ◌≤◌, ◌<◌, pos, true, false, List, [], ◌∷◌, ◌++◌, some, Bytes, codes, ◌≡◌, ◌≢◌,
  refl, sym, ap, ◌∙◌, arith, length, take, append_assoc, append-nil, length-append, All, take-all,
}
use zam_tok.CString.{tokens_from, tokens, one_of, is_ws, skip_ws, trim_end}
use zam_tok.CString.Search.{Free}
use zam_tok.CString.Format.{fit-fits}
use zam_tok.Outcome.{returns}
use zam_tok.Http.Helpers.{http_trim_token, split_members}
use zam_tok.Http.Members.{names, member_names}
use zam_tok.Ctrl.{Terminal, Client, say, within, number_loop, answer}
use zam_tok.Ctrl.Members.{appended, ctrl_append_member, members_size, members_loop}
use zam_tok.Ctrl.Lines.{left_over, ctrl_read_line_lem}

-- A byte of a name: no NUL, no comma and no white space.
abbrev pub IsPlain : ℕ → Type 0
IsPlain c = (c ≢ 0) × (c ≢ b',') × (is_ws c ≡ false)

-- A name that fits on a line.
pub record IsName (n : Bytes) : Type 0 where
  pub given : 0 < length n
  pub short : length n < 15
  pub plain : All IsPlain n

-- The names behind a member list, each behind a comma unless it is the first.
abbrev pub joined : Bytes → List Bytes → Bytes
joined members [] = members
joined members (n ∷ ns) = joined (members ++ appended members n) ns

-- What the user types: a line for each name.
abbrev pub lines : List Bytes → Bytes → Bytes
lines [] rest = rest
lines (n ∷ ns) rest = n ++ b'\n' ∷ lines ns rest

length-joined : (members : Bytes) (ns : List Bytes) → length members ≤ length (joined members ns)
length-joined members [] = omega arith
length-joined members (n ∷ ns) = omega (
  arith,
  length-joined (members ++ appended members n) ns,
  length-append {0} members (appended members n),
)

plain-Free : (n : Bytes) → All IsPlain n → Free 0 n × Free (b'\n') n × Free (b',') n
unfolding is_ws
plain-Free [] h = (tt, tt, tt)
plain-Free (c ∷ n) ((z, k, w), h) =
    let (a, b, d) = plain-Free n h in ((z, a), ((λ e. ground arith), b), (k, d))

trim_end-plain : (n : Bytes) → All IsPlain n → trim_end n ≡ n
unfolding trim_end
trim_end-plain [] h = refl
trim_end-plain (c ∷ []) ((z, k, w), h) = rw w refl
trim_end-plain (c ∷ d ∷ n) (p, h) = rw (trim_end-plain (d ∷ n) h, trim_end) refl

trim-plain : (n : Bytes) → All IsPlain n → http_trim_token n ≡ n
unfolding http_trim_token skip_ws
trim-plain [] h = refl
trim-plain (c ∷ n) ((z, k, w), h) = rw w (trim_end-plain (c ∷ n) ((z, k, w), h))

-- A name behind a comma is one more token.
tokens-Free :
    (t : ℕ) (cur n : Bytes)
    → Free (b',') n
    → tokens_from (one_of (codes ",")) (t ∷ cur) n ≡ (t ∷ (cur ++ n)) ∷ []
unfolding tokens_from one_of
tokens-Free t cur [] h = ground (arith, append-nil cur)
tokens-Free t cur (c ∷ n) (p, h) =
    ground (arith, tokens-Free t (cur ++ c ∷ []) n h, append_assoc cur (c ∷ []) n)

tokens-name :
    (n : Bytes) → 0 < length n → Free (b',') n → tokens_from (one_of (codes ",")) [] n ≡ n ∷ []
unfolding tokens_from one_of
tokens-name [] g h = absurd (omega arith)
tokens-name (c ∷ n) g (p, h) = ground (arith, tokens-Free c [] n h)

tokens-comma :
    (cur s n : Bytes)
    → 0 < length n
    → Free (b',') n
    → tokens_from (one_of (codes ",")) cur (s ++ b',' ∷ n)
      ≡ tokens_from (one_of (codes ",")) cur s ++ n ∷ []
unfolding tokens_from one_of
tokens-comma [] [] n g h = ground (arith, tokens-name n g h)
tokens-comma (t ∷ cur) [] n g h = ground (arith, tokens-name n g h)
tokens-comma [] (c ∷ s) n g h =
    ground (arith, tokens-comma [] s n g h, tokens-comma (c ∷ []) s n g h)
tokens-comma (t ∷ cur) (c ∷ s) n g h =
    ground (arith, tokens-comma [] s n g h, tokens-comma (t ∷ (cur ++ c ∷ [])) s n g h)

tokens-joined :
    (c : ℕ) (m : Bytes) (ns : List Bytes)
    → All IsName ns
    → tokens (one_of (codes ",")) (joined (c ∷ m) ns) ≡ tokens (one_of (codes ",")) (c ∷ m) ++ ns
unfolding tokens
tokens-joined c m [] h = sym (append-nil _)
tokens-joined c m (n ∷ ns) (p, h) =
    tokens-joined c (m ++ b',' ∷ n) ns h
    ∙ ap (λ (ts : List Bytes). ts ++ ns)
        (tokens-comma [] (c ∷ m) n p.given (plain-Free n p.plain).2)
    ∙ append_assoc (tokens (one_of (codes ",")) (c ∷ m)) (n ∷ []) ns

names-plain : (ns : List Bytes) → All IsName ns → names ns ≡ ns
names-plain [] h = refl
names-plain ([] ∷ ns) (p, h) = absurd (omega (arith, p.given))
names-plain ((c ∷ n) ∷ ns) (p, h) = rw (trim-plain (c ∷ n) p.plain, names-plain ns h) refl

joined-tokens : (ns : List Bytes) → All IsName ns → tokens (one_of (codes ",")) (joined [] ns) ≡ ns
unfolding tokens tokens_from
joined-tokens [] h = refl
joined-tokens ([] ∷ ns) (p, h) = absurd (omega (arith, p.given))
joined-tokens ((c ∷ n) ∷ ns) (p, h) =
    tokens-joined c n ns h
    ∙ ap (λ (ts : List Bytes). ts ++ ns)
        (tokens-name (c ∷ n) p.given (plain-Free (c ∷ n) p.plain).2)

pub joined-names :
    (ns : List Bytes)
    → All IsName ns
    → length (joined [] ns) < 256
    → member_names (joined [] ns) ≡ ns
unfolding split_members
joined-names ns h short =
    rw (fit-fits 256 (joined [] ns) short, joined-tokens ns h) (names-plain ns h)

append_fits :
    (members n : Bytes)
    → 0 < length n
    → length (members ++ appended members n) < 256
    → ctrl_append_member members members_size n ≡ (true, members ++ appended members n)
unfolding ctrl_append_member
append_fits members [] g h = absurd (omega arith)
append_fits members (c ∷ n) g h =
    let room : length (appended members (c ∷ n)) < 256 - length members =
      omega (arith, length-append {0} members (appended members (c ∷ n))) in
    ground (arith, fit-fits (256 - length members) (appended members (c ∷ n)) room)

-- The loop takes the names from the input, and leaves what follows them.
pub members_loop-names :
    (ns : List Bytes) (members rest : Bytes) (c : Client)
    → All IsName ns
    → length (joined members ns) < 256
    → c.stdin ≡ lines ns rest
    → (d : Client) × (members_loop (length ns) members c ≡ returns (some (joined members ns), d))
      × (d.stdin ≡ rest)
unfolding members_loop
members_loop-names [] members rest c h short e = (c, refl, e)
members_loop-names (n ∷ ns) members rest c (p, h) short e =
    let read =
      ctrl_read_line_lem (codes "friend user_id: ") 16 n (lines ns rest) c (omega arith)
        (plain-Free n p.plain).1 (plain-Free n p.plain).0 p.given e in
    let c' : Client = record (say (codes "friend user_id: ") c) {
      stdin = left_over 15 n (lines ns rest);
    } in
    let (d, runs, left) =
      members_loop-names ns (members ++ appended members n) rest c' h short
        (ground (arith, p.short)) in
    let short' : length (members ++ appended members n) < 256 =
      omega (arith, length-joined (members ++ appended members n) ns) in
    (
      d,
      rw (read, take-all 15 n (omega (arith, p.short)), append_fits members n p.given short') runs,
      left,
    )

pub number_loop_first :
    (T : Terminal) (fuel : ℕ) (prompt line rest : Bytes) (n high : ℕ) (c : Client)
    → 0 < fuel
    → IsName line
    → T.atoi line ≡ pos n
    → 1 ≤ n
    → n ≤ high
    → c.stdin ≡ line ++ b'\n' ∷ rest
    → number_loop T fuel prompt 1 high c ≡ returns (some n, record (say prompt c) { stdin = rest })
unfolding number_loop
number_loop_first T zero prompt line rest n high c f p e low up typed = absurd (omega arith)
number_loop_first T (suc fuel) prompt line rest n high c f p e low up typed =
    let read =
      ctrl_read_line_lem prompt 32 line rest c (omega arith) (plain-Free line p.plain).1
        (plain-Free line p.plain).0 p.given typed in
    let all : take 31 line ≡ line = take-all 31 line (omega (arith, p.short)) in
    let behind : left_over 31 line rest ≡ rest = ground (arith, p.short) in
    let inside : within 1 high (T.atoi line) ≡ some n = rw e (ground arith) in
    rw (read, all, answer, inside, behind) refl
