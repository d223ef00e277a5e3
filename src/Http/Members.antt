-- ===== src/Http/Members.antt =====
-- The member lists of rooms: what the loops of src/SERVER/zt_http.c and of src/SERVER/zt_redis.c read
-- out of a text such as "bob, carol".
use zam_tok.Prelude.{
  ℕ, ◌+◌, ◌≤◌, pos, Bool, true, ◌&&◌, ◌||◌, List, [], ◌∷◌, some, Bytes, codes, ◌≡◌, ◌↔◌, ◌⊎◌, refl,
  arith, if◌then◌else◌, length,
}
use zam_tok.CString.{str_eq}
use zam_tok.CString.Search.{str_eq_iff}
use zam_tok.CString.Tokens.{IsTrimmed, trim-IsTrimmed}
use zam_tok.Codes.Rc
use zam_tok.World.{Platform, World, integer}
use zam_tok.Redis.Keys.{friend_key, is_friend_words}
use zam_tok.Redis.Calls.{command}
use zam_tok.Redis.Users.{redis_user_is_friend}
use zam_tok.Redis.Rooms.{redis_trim_token}
use zam_tok.Redis.Laws.{IsRedis, takes_set}
use zam_tok.Http.Helpers.{
  http_trim_token, split_members, count_loop, http_member_count, http_validate_room_type_members,
  friends_loop, http_members_are_friends,
}

-- Both token trimmers cut off exactly the white space at the two ends.
pub trimmers-IsTrimmed :
    (s : Bytes) → IsTrimmed s (http_trim_token s) × IsTrimmed s (redis_trim_token s)
unfolding http_trim_token redis_trim_token
trimmers-IsTrimmed s = (trim-IsTrimmed s, trim-IsTrimmed s)

-- A trimmed token in front of others: an empty one is no name.
abbrev pub with_name : Bytes → List Bytes → List Bytes
with_name [] r = r
with_name (c ∷ s) r = (c ∷ s) ∷ r

-- The names among the tokens.
abbrev pub names : List Bytes → List Bytes
names [] = []
names (t ∷ ts) = with_name (http_trim_token t) (names ts)

-- The names in a member list.
abbrev pub member_names : Bytes → List Bytes
member_names members = names (split_members members)

count_loop-names : (ts : List Bytes) (n : ℕ) → count_loop ts n ≡ n + length (names ts)
unfolding count_loop
count_loop-names [] n = omega arith
count_loop-names (t ∷ ts) n = ground (arith, count_loop-names ts n, count_loop-names ts (n + 1))

pub http_member_count_lem : (m : Bytes) → http_member_count m ≡ length (member_names m)
unfolding http_member_count
http_member_count_lem m = omega (arith, count_loop-names (split_members m) 0)

-- A member list suits the type of its room.
abbrev pub Suits : Bytes → ℕ → Type 0
Suits room_type count =
    ((room_type ≡ codes "1:1") × (count ≡ 1)) ⊎ ((room_type ≡ codes "1:N") × (1 ≤ count))

-- A room of type "1:1" is accepted with exactly one name in its member list, a room of type "1:N" with
-- at least one, and no other.
pub http_validate_room_type_members_lem :
    (t m : Bytes)
    → (http_validate_room_type_members t m ≡ Rc.ok) ↔ Suits t (length (member_names m))
unfolding http_validate_room_type_members
http_validate_room_type_members_lem t m =
    ground (arith, http_member_count_lem m, str_eq_iff t (codes "1:1"), str_eq_iff t (codes "1:N"))

module _ {P : Platform} (L : IsRedis P) (w : World P) (up : w.connected ≡ true) (user : Bytes)
    (typed : takes_set (L.kind w.store (friend_key user)) ≡ true) where
  -- Whom `redis_user_is_friend` takes for a friend of the user.
  abbrev pub is_friend : Bytes → Bool
  is_friend n = str_eq user n || L.has_member w.store (friend_key user) n

  abbrev pub all_friends : List Bytes → Bool
  all_friends [] = true
  all_friends (n ∷ ns) = is_friend n && all_friends ns

  friend_reply :
      (n : Bytes)
      → command (is_friend_words user n) w
        ≡ (some (integer (if L.has_member w.store (friend_key user) n then pos 1 else pos 0)), w)
  unfolding command
  friend_reply n = rw (L.sismember_law w.store (friend_key user) n typed)

  pub redis_user_is_friend_lem :
      (n : Bytes) → redis_user_is_friend user n w ≡ ((if is_friend n then pos 1 else pos 0), w)
  unfolding redis_user_is_friend
  redis_user_is_friend_lem n = ground (arith, friend_reply n)

  friends_loop_lem :
      (ts : List Bytes)
      → friends_loop user ts w ≡ ((if all_friends (names ts) then Rc.ok else Rc.fail), w)
  unfolding friends_loop
  friends_loop_lem [] = refl
  friends_loop_lem (t ∷ ts) =
      ground (arith, friends_loop_lem ts, redis_user_is_friend_lem (http_trim_token t))

  -- On a connected platform with the laws of Redis, where the key of the user's friends holds no other
  -- type, `http_members_are_friends` accepts a member list exactly if each name in it is the user's own
  -- or one in the set of the user's friends, and changes nothing.
  pub http_members_are_friends_lem :
      (m : Bytes)
      → http_members_are_friends user m w
        ≡ ((if all_friends (member_names m) then Rc.ok else Rc.fail), w)
  unfolding http_members_are_friends
  http_members_are_friends_lem m = friends_loop_lem (split_members m)
