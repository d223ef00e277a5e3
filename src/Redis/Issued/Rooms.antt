-- ===== src/Redis/Issued/Rooms.antt =====
-- What the calls of src/SERVER/zt_redis.c on rooms leave as it is.
use zam_tok.Prelude.{
  ℕ, zero, suc, ◌-◌, ℤ, is_nat, not, ◌&&◌, ◌||◌, List, [], ◌∷◌, ◌++◌, Bytes, codes, inl, inr, arith,
  ltb, leb, Bool-cases, Option-cases, length,
}
use zam_tok.World.{Platform, Reply, World}
use zam_tok.Redis.Keys.{
  Room, is_empty, room_get_words, room_key, room_member_add_words, room_save_words,
  user_room_add_words, zero_room,
}
use zam_tok.Redis.Calls.{command, finish_ok, redis_exists_key, store_then}
use zam_tok.Redis.Rooms.{
  RoomIdPtr, add_first_members, apart, member_loop, member_tokens, read_id, redis_add_room_member,
  redis_add_room_members, redis_room_get, redis_room_invite, redis_room_save, redis_trim_token,
  save_room,
}
use zam_tok.Outcome.{Outcome, out_of_fuel, overruns, returns}
use zam_tok.Redis.RoomList.{
  goes_on, id_of_key, key_loop, page_of, redis_room_list, room_list_words, scan_loop,
}
use zam_tok.Redis.Issued.{
  Invariant, Keeps, Same, Same-refl, Same-trans, command-Keeps, finish_ok-Keeps, member_added,
  redis_exists_key-Keeps, room_added, room_read, room_saved, rooms_read, store_then-Keeps,
}

module _ {P : Platform} (I : Invariant P) where
  redis_add_room_member-Keeps : (r u : Bytes) → Keeps I {A = ℤ} (redis_add_room_member r u)
  unfolding redis_add_room_member
  redis_add_room_member-Keeps r u w = elim (Bool-cases (is_empty u)) [
    | inl e ↦ rw e (Same-refl I w)
    | inr e ↦ rw e (
        store_then-Keeps I (room_member_add_words r u)
          (store_then (user_room_add_words r u) finish_ok) (member_added r u)
          (store_then-Keeps I (user_room_add_words r u) finish_ok (room_added r u)
            (finish_ok-Keeps I))
          w)
  ]

  member_loop-Keeps : (r : Bytes) (ts : List Bytes) → Keeps I {A = ℤ} (member_loop r ts)
  unfolding member_loop
  member_loop-Keeps r [] w = Same-refl I w
  member_loop-Keeps r (t ∷ ts) w = ground (
    arith,
    redis_add_room_member-Keeps r (redis_trim_token t) w,
    member_loop-Keeps r ts w,
    member_loop-Keeps r ts (redis_add_room_member r (redis_trim_token t) w).1,
  )

  add_room_members-Keeps : (r m : Bytes) → Keeps I {A = ℤ} (redis_add_room_members r m)
  unfolding redis_add_room_members
  add_room_members-Keeps r m w = elim (Bool-cases (is_empty m)) [
    | inl e ↦ rw e (Same-refl I w)
    | inr e ↦ rw e (member_loop-Keeps r (member_tokens m) w)
  ]

  pub redis_room_get-Keeps :
      (p : RoomIdPtr) (out : Room) → Keeps I {A = ℤ × Room} (redis_room_get p out)
  unfolding redis_room_get
  redis_room_get-Keeps p out w = ground (
    arith,
    command-Keeps I (room_get_words (read_id p zero_room)) (room_read (read_id p zero_room)) w,
  )

  add_first_members-Keeps : (r : Room) → Keeps I {A = ℤ} (add_first_members r)
  unfolding add_first_members
  add_first_members-Keeps r w = ground (
    arith,
    redis_add_room_member-Keeps r.room_id r.creator_id w,
    add_room_members-Keeps r.room_id r.members (redis_add_room_member r.room_id r.creator_id w).1,
  )

  save_room-Keeps : (r : Room) → Keeps I {A = ℤ} (save_room r)
  unfolding save_room
  save_room-Keeps r w =
      store_then-Keeps I (room_save_words P r) (add_first_members r) (room_saved r)
        (add_first_members-Keeps r) w

  pub redis_room_save-Keeps : (r : Room) → Keeps I {A = ℤ} (redis_room_save r)
  unfolding redis_room_save
  redis_room_save-Keeps r w =
      let asked = redis_exists_key-Keeps I (room_key r.room_id) w in
      let saved = save_room-Keeps r (redis_exists_key (room_key r.room_id) w).1 in
      ground (arith, asked, saved)

  pub redis_room_invite-Keeps : (r u m : Bytes) → Keeps I {A = ℤ} (redis_room_invite r u m)
  unfolding redis_room_invite
  redis_room_invite-Keeps r u m w =
      let got = redis_room_get-Keeps (apart r) zero_room w in
      let added = add_room_members-Keeps r m (redis_room_get (apart r) zero_room w).1 in
      ground (arith, got, added)

  -- An outcome, if there is one, leaves that as it is.
  abbrev pub Leaves : {A : Type 0} → World P → Outcome (A × World P) → Type 0
  Leaves w o = elim o as (λ x. Type 0) [
    | returns (a, w') ↦ Same I w w'
    | out_of_fuel ↦ Unit
    | overruns ↦ Unit
  ]

  key_loop-Keeps : (n : ℕ) (rs : List Reply) → Keeps I {A = List Room} (key_loop n rs)
  unfolding key_loop
  key_loop-Keeps n [] w = Same-refl I w
  key_loop-Keeps zero (r ∷ rs) w = Same-refl I w
  key_loop-Keeps (suc n) (r ∷ rs) w = elim (Option-cases (id_of_key r)) [
    | inl e ↦ rw (e, key_loop) (key_loop-Keeps (suc n) rs w)
    | inr (id, e) ↦
        let got = redis_room_get {P = P} (apart id) zero_room w in
        let first = redis_room_get-Keeps (apart id) zero_room w in
        elim (Bool-cases (is_nat got.0.0 0)) [
          | inl there ↦
              rw (e, key_loop) (rw there (Same-trans I w got.1 _ first (key_loop-Keeps n rs got.1)))
          | inr missing ↦
              rw (e, key_loop)
                (rw missing (Same-trans I w got.1 _ first (key_loop-Keeps (suc n) rs got.1)))
        ]
  ]

  scan_loop-Leaves :
      (fuel max : ℕ) (cursor : Bytes) (found : List Room) (w v : World P)
      → Same I w v
      → Leaves w (scan_loop fuel max cursor found v)
  unfolding scan_loop
  scan_loop-Leaves zero max cursor found w v h = tt
  scan_loop-Leaves (suc fuel) max cursor found w v h =
      let asked = command {P = P} (room_list_words cursor) v in
      let h1 =
        Same-trans I w v asked.1 h
          (command-Keeps I (room_list_words cursor) (rooms_read cursor) v) in
      elim (Option-cases (page_of asked.0)) [
        | inl e ↦ rw (e, scan_loop) h1
        | inr ((next, keys), e) ↦
            let got = key_loop {P = P} (max - length found) keys asked.1 in
            let h2 =
              Same-trans I w asked.1 got.1 h1 (key_loop-Keeps (max - length found) keys asked.1) in
            elim (Bool-cases (goes_on next && ltb (length (found ++ got.0)) max)) [
              | inl more ↦
                  rw (e, scan_loop)
                    (rw (more, Leaves) (scan_loop-Leaves fuel max next (found ++ got.0) w got.1 h2))
              | inr done ↦ rw (e, scan_loop) (rw (done, Leaves) h2)
            ]
      ]

  pub redis_room_list-Leaves : (fuel max : ℕ) (w : World P) → Leaves w (redis_room_list fuel max w)
  unfolding redis_room_list
  redis_room_list-Leaves fuel max w = elim (Bool-cases (not w.connected || leb max 0)) [
    | inl e ↦ rw e (Same-refl I w)
    | inr e ↦ rw e (scan_loop-Leaves fuel max (codes "0") [] w w (Same-refl I w))
  ]
