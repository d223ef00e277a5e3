-- ===== src/Redis/RoomList/Ends.antt =====
-- The listing of rooms ends.
use zam_tok.Redis.Rooms.{redis_room_get, apart}
use zam_tok.Prelude.{
  ℕ, zero, suc, ◌-◌, ◌≤◌, ◌<◌, ℤ, true, false, not, ◌&&◌, ◌||◌, List, [], ◌∷◌, ◌++◌, Option, none,
  some, Bytes, codes, ◌≡◌, ◌⊎◌, inl, inr, arith, ltb, leb, Bool-cases, Option-cases, length,
  length-append,
}
use zam_tok.Codes.Rc
use zam_tok.Outcome.{Outcome, returns, Returns}
use zam_tok.World.{Reply, Platform, World}
use zam_tok.Redis.Keys.{Room, zero_room}
use zam_tok.Redis.Calls.{command}
use zam_tok.Redis.RoomList.{
  room_list_words, page_of, goes_on, key_loop, scan_loop, redis_room_list, id_of_key,
}

-- The promise of `SCAN`: a new cursor is "0", or stands for fewer slots that are left.
abbrev pub Advances : (Bytes → ℕ) → Bytes → Option Reply → Type 0
Advances left cursor r = elim (page_of r) as (λ x. Type 0) [
  | none ↦ Unit
  | some (next, keys) ↦ (goes_on next ≡ false) ⊎ (left next < left cursor)
]

pub record ScanEnds (P : Platform) : Type 0 where
  pub left : Bytes → ℕ
  pub advances :
      (s : P.Store) (cursor : Bytes)
      → Advances left cursor (P.redis_command (room_list_words cursor) s).0

-- What a listing has come to.
abbrev pub Listed : {P : Platform} → ℕ → (ℤ × List Room) × World P → Type 0
Listed max ((rc, rooms), w) = length rooms ≤ max

module _ {P : Platform} where
  length-key_loop : (n : ℕ) (rs : List Reply) (w : World P) → length (key_loop n rs w).0 ≤ n
  unfolding key_loop
  length-key_loop n [] w = omega arith
  length-key_loop zero (r ∷ rs) w = omega arith
  length-key_loop (suc n) (r ∷ rs) w = elim (Option-cases (id_of_key r)) [
    | inl e ↦ rw (e, key_loop) (length-key_loop (suc n) rs w)
    | inr (id, e) ↦
        let got = redis_room_get (apart id) zero_room w in
        ground (arith, length-key_loop n rs got.1, length-key_loop (suc n) rs got.1)
  ]

module _ {P : Platform} (E : ScanEnds P) where
  command-Advances :
      (cursor : Bytes) (w : World P) → Advances E.left cursor (command (room_list_words cursor) w).0
  unfolding command
  command-Advances cursor w = E.advances w.store cursor

  -- What follows one page.
  abbrev after_page :
      ℕ → ℕ → List Room → List Reply → Bytes → World P → Outcome ((ℤ × List Room) × World P)
  after_page fuel max found keys next w =
      let got = key_loop (max - length found) keys w in
      let rooms = found ++ got.0 in
      elim (goes_on next && ltb (length rooms) max) as (λ x. Outcome ((ℤ × List Room) × World P)) [
        | true ↦ scan_loop fuel max next rooms got.1
        | false ↦ returns ((Rc.ok, rooms), got.1)
      ]

  page-Returns :
      (fuel max : ℕ) (cursor : Bytes) (found : List Room) (keys : List Reply) (next : Bytes)
      (w : World P)
      → (goes_on next ≡ false) ⊎ (E.left next < E.left cursor)
      → E.left cursor < suc fuel
      → length found ≤ max
      → ((c : Bytes) (r : List Room) (v : World P)
          → E.left c < fuel
          → length r ≤ max
          → Returns (scan_loop fuel max c r v) (Listed max))
      → Returns (after_page fuel max found keys next w) (Listed max)
  page-Returns fuel max cursor found keys next w step h k more =
      let got = key_loop {P = P} (max - length found) keys w in
      let rooms = found ++ got.0 in
      let fits : length rooms ≤ max =
        omega (arith, length-append {0} found got.0, length-key_loop (max - length found) keys w) in
      elim (Bool-cases (goes_on next && ltb (length rooms) max)) [
        | inl e ↦ rw (e, Returns) (more next rooms got.1 (ground arith) fits)
        | inr e ↦ rw (e, Returns) fits
      ]

  scan_loop-Returns :
      (fuel max : ℕ) (cursor : Bytes) (found : List Room) (w : World P)
      → E.left cursor < fuel
      → length found ≤ max
      → Returns (scan_loop fuel max cursor found w) (Listed max)
  unfolding scan_loop
  scan_loop-Returns zero max cursor found w h k = absurd (omega arith)
  scan_loop-Returns (suc fuel) max cursor found w h k =
      let asked = command {P = P} (room_list_words cursor) w in
      elim (Option-cases (page_of asked.0)) [
        | inl e ↦ rw (e, scan_loop) k
        | inr ((next, keys), e) ↦
            rw (e, scan_loop)
              (page-Returns fuel max cursor found keys next asked.1
                (rw (e, Advances) at (command-Advances cursor w)) h k (scan_loop-Returns fuel max))
      ]

  -- Where each reply to `SCAN` takes the scan forward, and the fuel is more than the slots that are left
  -- at the first cursor, `redis_room_list` returns, with at most as many rooms as the array holds.
  pub redis_room_list-Returns :
      (fuel max : ℕ) (w : World P)
      → E.left (codes "0") < fuel
      → Returns (redis_room_list fuel max w) (Listed max)
  unfolding redis_room_list
  redis_room_list-Returns fuel max w h = elim (Bool-cases (not w.connected || leb max 0)) [
    | inl e ↦ rw e (omega arith)
    | inr e ↦ rw e (scan_loop-Returns fuel max (codes "0") [] w h (omega arith))
  ]
