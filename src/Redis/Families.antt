-- ===== src/Redis/Families.antt =====
-- The families of keys of src/SERVER/zt_redis.h, and the type that the keys of each have in the database.
use zam_tok.Prelude.{
  Bool, true, false, List, Bytes, ◌≡◌, inl, inr, refl, sym, ap, ◌∙◌, subst, ◌==◌, if◌then◌else◌,
  Bool-cases, get_or,
}
use zam_tok.CString.{str_eq, fit}
use zam_tok.CString.Search.{str_eq_iff}
use zam_tok.Redis.Keys.{
  user_key, mdn_key, room_key, friend_key, room_members_key, user_rooms_key, friend_list_words,
}
use zam_tok.Redis.RoomList.{room_list_words}
use zam_tok.Redis.Laws.{
  Kind, text, hash, set, absent, takes_hash, takes_set, user_pairs, room_pairs, IsRedis,
}
use zam_tok.World.{Platform}
use zam_tok.Redis.Issued.{
  IsIssued, exists_sent, user_saved, mdn_saved, user_read, friend_tested, friends_read, room_saved,
  room_read, rooms_read, member_added, room_added, Invariant,
}

pub data Family : Type 0 where
  users mdns rooms friends room_members user_rooms : Family

abbrev pub key_of : Family → Bytes → Bytes
key_of users = user_key
key_of mdns = mdn_key
key_of rooms = room_key
key_of friends = friend_key
key_of room_members = room_members_key
key_of user_rooms = user_rooms_key

abbrev takes_text : Kind → Bool
takes_text absent = true
takes_text text = true
takes_text hash = false
takes_text set = false

-- The kinds that a key of a family may have.
abbrev pub accepts : Family → Kind → Bool
accepts users = takes_hash
accepts mdns = takes_text
accepts rooms = takes_hash
accepts friends = takes_set
accepts room_members = takes_set
accepts user_rooms = takes_set

-- The kind that a command on a family makes its key.
abbrev made : Family → Kind
made users = hash
made mdns = text
made rooms = hash
made friends = set
made room_members = set
made user_rooms = set

accepts-made : (f : Family) → accepts f (made f) ≡ true
accepts-made users = refl
accepts-made mdns = refl
accepts-made rooms = refl
accepts-made friends = refl
accepts-made room_members = refl
accepts-made user_rooms = refl

-- The family by the first and the fifth byte of a key.
abbrev family_of : Bytes → Family
family_of k =
    let fifth = get_or k 4 0 in
    if get_or k 0 0 == b'm'
    then mdns
    else if get_or k 0 0 == b'f'
    then friends
    else if get_or k 0 0 == b'u'
    then (if fifth == b':' then users else user_rooms)
    else (if fifth == b':' then rooms else room_members)

family_of-key_of : (f : Family) (id : Bytes) → family_of (key_of f id) ≡ f
unfolding user_key mdn_key room_key friend_key room_members_key user_rooms_key fit
family_of-key_of users id = refl
family_of-key_of mdns id = refl
family_of-key_of rooms id = refl
family_of-key_of friends id = refl
family_of-key_of room_members id = refl
family_of-key_of user_rooms id = refl

-- Keys of two families differ.
key_of-family : (f g : Family) (a b : Bytes) → str_eq (key_of f a) (key_of g b) ≡ true → f ≡ g
key_of-family f g a b h =
    sym (family_of-key_of f a)
    ∙ ap family_of ((str_eq_iff (key_of f a) (key_of g b)).0 h)
    ∙ family_of-key_of g b

module _ {P : Platform} (L : IsRedis P) where
  -- Every key of each family is absent or has the family's type.
  unfoldable pub IsTyped : P.Store → Type 0
  IsTyped s = (f : Family) (id : Bytes) → accepts f (L.kind s (key_of f id)) ≡ true

  pub written-IsTyped :
      (f : Family) (a : Bytes) (s t : P.Store)
      → ((j : Bytes) → L.kind t j ≡ (if str_eq (key_of f a) j then made f else L.kind s j))
      → IsTyped s
      → IsTyped t
  unfolding IsTyped
  written-IsTyped f a s t k h g b = elim (Bool-cases (str_eq (key_of f a) (key_of g b))) [
    | inl e ↦
        rw (k (key_of g b), e)
          (subst (λ x. accepts g (made x) ≡ true) (sym (key_of-family f g a b e)) (accepts-made g))
    | inr e ↦ rw (k (key_of g b), e) (h g b)
  ]

-- What the laws do not say of `SMEMBERS` and `SCAN`: neither changes the database.
pub record ReadsOnly (P : Platform) : Type 0 where
  pub smembers_law : (id : Bytes) (s : P.Store) → (P.redis_command (friend_list_words id) s).1 ≡ s
  pub scan_law : (cursor : Bytes) (s : P.Store) → (P.redis_command (room_list_words cursor) s).1 ≡ s

module _ {P : Platform} (L : IsRedis P) (R : ReadsOnly P) where
  unchanged : (s t : P.Store) → t ≡ s → IsTyped L s → IsTyped L t
  unchanged s t e h = subst (IsTyped L) (sym e) h

  pub issued-IsTyped :
      (words : List Bytes)
      → IsIssued P words
      → (s : P.Store) → IsTyped L s
      → IsTyped L (P.redis_command words s).1
  unfolding IsTyped
  issued-IsTyped _ (exists_sent k) s h = unchanged s _ (ap (λ x. x.1) (L.exists_law s k)) h
  issued-IsTyped _ (user_saved u) s h =
      written-IsTyped L users u.user_id s _
        (λ j. L.hset_kind s _ (user_pairs P u) j (h users u.user_id)) h
  issued-IsTyped _ (mdn_saved u) s h = written-IsTyped L mdns u.mdn s _ (λ j. L.set_kind s _ _ j) h
  issued-IsTyped _ (user_read id) s h =
      unchanged s _ (ap (λ x. x.1) (L.hmget_law s _ _ (h users id))) h
  issued-IsTyped _ (friend_tested a b) s h =
      unchanged s _ (ap (λ x. x.1) (L.sismember_law s _ _ (h friends a))) h
  issued-IsTyped _ (friends_read id) s h = unchanged s _ (R.smembers_law id s) h
  issued-IsTyped _ (room_saved r) s h =
      written-IsTyped L rooms r.room_id s _
        (λ j. L.hset_kind s _ (room_pairs P r) j (h rooms r.room_id)) h
  issued-IsTyped _ (room_read id) s h =
      unchanged s _ (ap (λ x. x.1) (L.hmget_law s _ _ (h rooms id))) h
  issued-IsTyped _ (rooms_read c) s h = unchanged s _ (R.scan_law c s) h
  issued-IsTyped _ (member_added r u) s h =
      written-IsTyped L room_members r s _ (λ j. L.sadd_kind s _ _ j (h room_members r)) h
  issued-IsTyped _ (room_added r u) s h =
      written-IsTyped L user_rooms u s _ (λ j. L.sadd_kind s _ _ j (h user_rooms u)) h

  abbrev pub typed_invariant : Invariant P
  typed_invariant = record { Holds = IsTyped L; kept = issued-IsTyped }
