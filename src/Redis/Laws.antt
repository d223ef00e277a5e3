-- ===== src/Redis/Laws.antt =====
-- What the server's code relies on of Redis, as its commands are documented: a key is absent or holds
-- a text, a hash or a set, and a command of another type than its key's is answered by an error.
-- These are hypotheses about the platform, never used by a definition; `Redis.Model` has a concrete
-- database that meets them.
pub mod Model
use zam_tok.Prelude.{
  arith, ℕ, ℤ, pos, Bool, true, false, ◌&&◌, ◌||◌, List, [], ◌∷◌, Option, none, some, Bytes, codes,
  ◌≡◌, if◌then◌else◌,
}
use zam_tok.CString.{str_eq}
use zam_tok.World.{Reply, Replies, nil, cons, nil_reply, integer, string, status, array, Platform}
use zam_tok.Redis.Keys.{exists_words, User, Room, created_at}

pub data Kind : Type 0 where
  absent text hash set : Kind

abbrev pub is_absent : Kind → Bool
is_absent absent = true
is_absent text = false
is_absent hash = false
is_absent set = false

-- The kinds of key that a command on hashes, or on sets, accepts.
abbrev pub takes_hash : Kind → Bool
takes_hash absent = true
takes_hash hash = true
takes_hash text = false
takes_hash set = false

abbrev pub takes_set : Kind → Bool
takes_set absent = true
takes_set set = true
takes_set text = false
takes_set hash = false

pub takes_hash-absent : (k : Kind) → is_absent k ≡ true → takes_hash k ≡ true
takes_hash-absent k h = ground arith

abbrev pub flat : List (Bytes × Bytes) → List Bytes
flat [] = []
flat ((f, v) ∷ r) = f ∷ v ∷ flat r

abbrev pub hset_words : Bytes → List (Bytes × Bytes) → List Bytes
hset_words k fs = codes "HSET" ∷ k ∷ flat fs

abbrev pub hmget_words : Bytes → List Bytes → List Bytes
hmget_words k fs = codes "HMGET" ∷ k ∷ fs

abbrev pub set_words : Bytes → Bytes → List Bytes
set_words k v = codes "SET" ∷ k ∷ v ∷ []

abbrev pub sadd_words : Bytes → Bytes → List Bytes
sadd_words k m = codes "SADD" ∷ k ∷ m ∷ []

abbrev pub sismember_words : Bytes → Bytes → List Bytes
sismember_words k m = codes "SISMEMBER" ∷ k ∷ m ∷ []

-- The pairs that a user and a room are saved with.
abbrev pub user_pairs : Platform → User → List (Bytes × Bytes)
user_pairs P u =
    (codes "name", u.name)
    ∷ (codes "pwd", u.password)
    ∷ (codes "mdn", u.mdn)
    ∷ (codes "created_at", created_at P)
    ∷ []

abbrev pub room_pairs : Platform → Room → List (Bytes × Bytes)
room_pairs P r =
    (codes "pwd", r.password)
    ∷ (codes "created_at", created_at P)
    ∷ (codes "user_id", r.creator_id)
    ∷ (codes "room_type", r.room_type)
    ∷ (codes "members", r.members)
    ∷ (codes "channel_id", r.channel_id)
    ∷ []

-- A field after `HSET` with the given pairs, by its value before.
abbrev pub written : List (Bytes × Bytes) → Bytes → Option Bytes → Option Bytes
written [] f old = old
written ((g, v) ∷ r) f old = written r f (if str_eq g f then some v else old)

abbrev pub reply_of : Option Bytes → Reply
reply_of none = nil_reply
reply_of (some s) = string s

-- The elements of the reply to `HMGET`, by the hash.
abbrev pub fields_of : (Bytes → Option Bytes) → List Bytes → Replies
fields_of h [] = nil
fields_of h (f ∷ fs) = cons (reply_of (h f)) (fields_of h fs)

pub record IsRedis (P : Platform) : Type 0 where
  pub kind : P.Store → Bytes → Kind
  pub hget : P.Store → Bytes → Bytes → Option Bytes
  pub has_member : P.Store → Bytes → Bytes → Bool
  pub exists_law :
      (s : P.Store) (k : Bytes)
      → P.redis_command (exists_words k) s
        ≡ (some (integer (if is_absent (kind s k) then pos 0 else pos 1)), s)
  pub hget_absent : (s : P.Store) (k f : Bytes) → kind s k ≡ absent → hget s k f ≡ none
  pub hmget_law :
      (s : P.Store) (k : Bytes) (fs : List Bytes)
      → takes_hash (kind s k) ≡ true
      → P.redis_command (hmget_words k fs) s ≡ (some (array (fields_of (hget s k) fs)), s)
  pub hset_reply :
      (s : P.Store) (k : Bytes) (fs : List (Bytes × Bytes))
      → takes_hash (kind s k) ≡ true
      → (n : ℤ) × ((P.redis_command (hset_words k fs) s).0 ≡ some (integer n))
  pub hset_kind :
      (s : P.Store) (k : Bytes) (fs : List (Bytes × Bytes)) (j : Bytes)
      → takes_hash (kind s k) ≡ true
      → kind (P.redis_command (hset_words k fs) s).1 j ≡ (if str_eq k j then hash else kind s j)
  pub hset_hget :
      (s : P.Store) (k : Bytes) (fs : List (Bytes × Bytes)) (j f : Bytes)
      → takes_hash (kind s k) ≡ true
      → hget (P.redis_command (hset_words k fs) s).1 j f
        ≡ (if str_eq k j then written fs f (hget s j f) else hget s j f)
  pub hset_member :
      (s : P.Store) (k : Bytes) (fs : List (Bytes × Bytes)) (j m : Bytes)
      → takes_hash (kind s k) ≡ true
      → has_member (P.redis_command (hset_words k fs) s).1 j m ≡ has_member s j m
  pub set_reply :
      (s : P.Store) (k v : Bytes)
      → (P.redis_command (set_words k v) s).0 ≡ some (status (codes "OK"))
  pub set_kind :
      (s : P.Store) (k v j : Bytes)
      → kind (P.redis_command (set_words k v) s).1 j ≡ (if str_eq k j then text else kind s j)
  pub set_hget :
      (s : P.Store) (k v j f : Bytes)
      → hget (P.redis_command (set_words k v) s).1 j f ≡ (if str_eq k j then none else hget s j f)
  pub set_member :
      (s : P.Store) (k v j m : Bytes)
      → has_member (P.redis_command (set_words k v) s).1 j m
        ≡ (if str_eq k j then false else has_member s j m)
  pub sadd_reply :
      (s : P.Store) (k m : Bytes)
      → takes_set (kind s k) ≡ true
      → (n : ℤ) × ((P.redis_command (sadd_words k m) s).0 ≡ some (integer n))
  pub sadd_kind :
      (s : P.Store) (k m j : Bytes)
      → takes_set (kind s k) ≡ true
      → kind (P.redis_command (sadd_words k m) s).1 j ≡ (if str_eq k j then set else kind s j)
  pub sadd_hget :
      (s : P.Store) (k m j f : Bytes)
      → takes_set (kind s k) ≡ true
      → hget (P.redis_command (sadd_words k m) s).1 j f ≡ hget s j f
  pub sadd_member :
      (s : P.Store) (k m j n : Bytes)
      → takes_set (kind s k) ≡ true
      → has_member (P.redis_command (sadd_words k m) s).1 j n
        ≡ ((str_eq k j && str_eq m n) || has_member s j n)
  pub sismember_law :
      (s : P.Store) (k m : Bytes)
      → takes_set (kind s k) ≡ true
      → P.redis_command (sismember_words k m) s
        ≡ (some (integer (if has_member s k m then pos 1 else pos 0)), s)
