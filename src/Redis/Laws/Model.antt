-- ===== src/Redis/Laws/Model.antt =====
-- A database that meets the laws: a function from keys to what they hold.
use zam_tok.CString.Search.{str_eq_iff}
use zam_tok.Prelude.{
  pos, Bool, true, false, ◌||◌, List, [], ◌∷◌, Option, none, some, Bytes, codes, if◌then◌else◌,
  length, ℤ, ◌&&◌, ◌≡◌, inl, inr, refl, ap, arith, Bool-cases,
}
use zam_tok.CString.{str_eq}
use zam_tok.Redis.Keys.{exists_words}
use zam_tok.World.{Reply, integer, status, error, array, Platform, World}
use zam_tok.Redis.Laws.{
  Kind, absent, text, hash, set, is_absent, takes_hash, takes_set, written, fields_of, flat,
  hset_words, hmget_words, set_words, sadd_words, sismember_words, IsRedis,
}

pub data Held : Type 0 where
  nothing : Held
  a_text : Bytes → Held
  a_hash : (Bytes → Option Bytes) → Held
  a_set : (Bytes → Bool) → Held

abbrev pub Database : Type 0
Database = Bytes → Held

abbrev pub put : Bytes → Held → Database → Database
put k h s j = if str_eq k j then h else s j

abbrev pub kind_of : Held → Kind
kind_of nothing = absent
kind_of (a_text v) = text
kind_of (a_hash h) = hash
kind_of (a_set m) = set

abbrev pub hash_of : Held → Bytes → Option Bytes
hash_of nothing f = none
hash_of (a_text v) f = none
hash_of (a_hash h) f = h f
hash_of (a_set m) f = none

abbrev pub set_of : Held → Bytes → Bool
set_of nothing m = false
set_of (a_text v) m = false
set_of (a_hash h) m = false
set_of (a_set s) m = s m

abbrev pub wrong_type : Option Reply
wrong_type = some (error (codes "WRONGTYPE"))

abbrev pub unflat : List Bytes → List (Bytes × Bytes)
unflat [] = []
unflat (f ∷ []) = []
unflat (f ∷ v ∷ r) = (f, v) ∷ unflat r

abbrev pub run_hset : Bytes → List Bytes → Database → Option Reply × Database
run_hset k words s =
    if takes_hash (kind_of (s k))
    then (
      some (integer (pos 1)),
      put k (a_hash (λ f. written (unflat words) f (hash_of (s k) f))) s,
    )
    else (wrong_type, s)

abbrev pub run_hmget : Bytes → List Bytes → Database → Option Reply × Database
run_hmget k fs s =
    if takes_hash (kind_of (s k))
    then (some (array (fields_of (hash_of (s k)) fs)), s)
    else (wrong_type, s)

abbrev pub run_set : Bytes → List Bytes → Database → Option Reply × Database
run_set k [] s = (wrong_type, s)
run_set k (v ∷ _) s = (some (status (codes "OK")), put k (a_text v) s)

abbrev pub run_sadd : Bytes → List Bytes → Database → Option Reply × Database
run_sadd k [] s = (wrong_type, s)
run_sadd k (m ∷ _) s =
    if takes_set (kind_of (s k))
    then (some (integer (pos 1)), put k (a_set (λ n. str_eq m n || set_of (s k) n)) s)
    else (wrong_type, s)

abbrev pub run_sismember : Bytes → List Bytes → Database → Option Reply × Database
run_sismember k [] s = (wrong_type, s)
run_sismember k (m ∷ _) s =
    if takes_set (kind_of (s k))
    then (some (integer (if set_of (s k) m then pos 1 else pos 0)), s)
    else (wrong_type, s)

abbrev pub run_exists : Bytes → Database → Option Reply × Database
run_exists k s = (some (integer (if is_absent (kind_of (s k)) then pos 0 else pos 1)), s)

abbrev pub run : List Bytes → Database → Option Reply × Database
run [] s = (none, s)
run (c ∷ []) s = (none, s)
run (c ∷ k ∷ args) s =
    if str_eq c (codes "EXISTS")
    then run_exists k s
    else if str_eq c (codes "HSET")
    then run_hset k args s
    else if str_eq c (codes "HMGET")
    then run_hmget k args s
    else if str_eq c (codes "SET")
    then run_set k args s
    else if str_eq c (codes "SADD")
    then run_sadd k args s
    else if str_eq c (codes "SISMEMBER")
    then run_sismember k args s
    else (none, s)

-- A platform over this database, on which every `write` writes everything.
abbrev pub platform : Platform
platform = record {
  Store = Database;
  redis_command = run;
  write = λ fd buf. pos (length buf);
  malloc = true;
  time = 1700000000;
}

abbrev pub empty_world : World platform
empty_world = record { store = λ k. nothing; connected = true; sent = [] }

unflat-flat : (fs : List (Bytes × Bytes)) → unflat (flat fs) ≡ fs
unflat-flat [] = refl
unflat-flat ((f, v) ∷ r) = ap (◌∷◌ (f, v)) (unflat-flat r)

hash_after :
    (s : Database) (k : Bytes) (fs : List (Bytes × Bytes)) (j : Bytes)
    → takes_hash (kind_of (s k)) ≡ true
    → (run (hset_words k fs) s).1 j
      ≡ (if str_eq k j then a_hash (λ f. written fs f (hash_of (s k) f)) else s j)
unfolding str_eq
hash_after s k fs j h = rw (h, unflat-flat fs)

set_after :
    (s : Database) (k m j : Bytes)
    → takes_set (kind_of (s k)) ≡ true
    → (run (sadd_words k m) s).1 j
      ≡ (if str_eq k j then a_set (λ n. str_eq m n || set_of (s k) n) else s j)
unfolding str_eq
set_after s k m j h = rw h

same_key : (k j : Bytes) → str_eq k j ≡ true → k ≡ j
same_key k j = (str_eq_iff k j).0

pub hset_hget_model :
    (s : Database) (k : Bytes) (fs : List (Bytes × Bytes)) (j f : Bytes)
    → takes_hash (kind_of (s k)) ≡ true
    → hash_of ((run (hset_words k fs) s).1 j) f
      ≡ (if str_eq k j then written fs f (hash_of (s j) f) else hash_of (s j) f)
hset_hget_model s k fs j f h = elim (Bool-cases (str_eq k j)) [
  | inl e ↦ rw (hash_after s k fs j h) (rw (e, same_key k j e))
  | inr e ↦ rw (hash_after s k fs j h) (rw e)
]

pub sadd_member_model :
    (s : Database) (k m j n : Bytes)
    → takes_set (kind_of (s k)) ≡ true
    → set_of ((run (sadd_words k m) s).1 j) n ≡ ((str_eq k j && str_eq m n) || set_of (s j) n)
sadd_member_model s k m j n h = elim (Bool-cases (str_eq k j)) [
  | inl e ↦ rw (set_after s k m j h) (rw (e, same_key k j e))
  | inr e ↦ rw (set_after s k m j h) (rw e)
]

pub hset_kind_model :
    (s : Database) (k : Bytes) (fs : List (Bytes × Bytes)) (j : Bytes)
    → takes_hash (kind_of (s k)) ≡ true
    → kind_of ((run (hset_words k fs) s).1 j) ≡ (if str_eq k j then hash else kind_of (s j))
hset_kind_model s k fs j h = rw (hash_after s k fs j h) (ground arith)

pub hset_member_model :
    (s : Database) (k : Bytes) (fs : List (Bytes × Bytes)) (j m : Bytes)
    → takes_hash (kind_of (s k)) ≡ true
    → set_of ((run (hset_words k fs) s).1 j) m ≡ set_of (s j) m
hset_member_model s k fs j m h = elim (Bool-cases (str_eq k j)) [
  | inl e ↦ rw (hash_after s k fs j h) (rw (e, ← same_key k j e) (ground arith))
  | inr e ↦ rw (hash_after s k fs j h) (rw e)
]

pub sadd_kind_model :
    (s : Database) (k m j : Bytes)
    → takes_set (kind_of (s k)) ≡ true
    → kind_of ((run (sadd_words k m) s).1 j) ≡ (if str_eq k j then set else kind_of (s j))
sadd_kind_model s k m j h = rw (set_after s k m j h) (ground arith)

pub sadd_hget_model :
    (s : Database) (k m j f : Bytes)
    → takes_set (kind_of (s k)) ≡ true
    → hash_of ((run (sadd_words k m) s).1 j) f ≡ hash_of (s j) f
sadd_hget_model s k m j f h = elim (Bool-cases (str_eq k j)) [
  | inl e ↦ rw (set_after s k m j h) (rw (e, ← same_key k j e) (ground arith))
  | inr e ↦ rw (set_after s k m j h) (rw e)
]

pub hset_reply_model :
    (s : Database) (k : Bytes) (fs : List (Bytes × Bytes))
    → takes_hash (kind_of (s k)) ≡ true
    → (n : ℤ) × ((run (hset_words k fs) s).0 ≡ some (integer n))
unfolding str_eq
hset_reply_model s k fs h = (pos 1, rw h)

pub sadd_reply_model :
    (s : Database) (k m : Bytes)
    → takes_set (kind_of (s k)) ≡ true
    → (n : ℤ) × ((run (sadd_words k m) s).0 ≡ some (integer n))
unfolding str_eq
sadd_reply_model s k m h = (pos 1, rw h)

pub hmget_model :
    (s : Database) (k : Bytes) (fs : List Bytes)
    → takes_hash (kind_of (s k)) ≡ true
    → run (hmget_words k fs) s ≡ (some (array (fields_of (hash_of (s k)) fs)), s)
unfolding str_eq
hmget_model s k fs h = rw h

pub sismember_model :
    (s : Database) (k m : Bytes)
    → takes_set (kind_of (s k)) ≡ true
    → run (sismember_words k m) s ≡ (some (integer (if set_of (s k) m then pos 1 else pos 0)), s)
unfolding str_eq
sismember_model s k m h = rw h

pub set_hget_model :
    (s : Database) (k v j f : Bytes)
    → hash_of ((run (set_words k v) s).1 j) f ≡ (if str_eq k j then none else hash_of (s j) f)
unfolding str_eq
set_hget_model s k v j f = ground arith

pub set_member_model :
    (s : Database) (k v j m : Bytes)
    → set_of ((run (set_words k v) s).1 j) m ≡ (if str_eq k j then false else set_of (s j) m)
unfolding str_eq
set_member_model s k v j m = ground arith

pub set_kind_model :
    (s : Database) (k v j : Bytes)
    → kind_of ((run (set_words k v) s).1 j) ≡ (if str_eq k j then text else kind_of (s j))
unfolding str_eq
set_kind_model s k v j = ground arith

pub hget_absent_model :
    (s : Database) (k f : Bytes) → kind_of (s k) ≡ absent → hash_of (s k) f ≡ none
hget_absent_model s k f h = ground arith

pub exists_model :
    (s : Database) (k : Bytes)
    → run (exists_words k) s
      ≡ (some (integer (if is_absent (kind_of (s k)) then pos 0 else pos 1)), s)
unfolding str_eq
exists_model s k = refl

pub set_reply_model :
    (s : Database) (k v : Bytes) → (run (set_words k v) s).0 ≡ some (status (codes "OK"))
unfolding str_eq
set_reply_model s k v = refl

abbrev pub model_laws : IsRedis platform
model_laws = record {
  kind = λ s k. kind_of (s k);
  hget = λ s k. hash_of (s k);
  has_member = λ s k. set_of (s k);
  exists_law = exists_model;
  hget_absent = hget_absent_model;
  hmget_law = hmget_model;
  hset_reply = hset_reply_model;
  hset_kind = hset_kind_model;
  hset_hget = hset_hget_model;
  hset_member = hset_member_model;
  set_reply = set_reply_model;
  set_kind = set_kind_model;
  set_hget = set_hget_model;
  set_member = set_member_model;
  sadd_reply = sadd_reply_model;
  sadd_kind = sadd_kind_model;
  sadd_hget = sadd_hget_model;
  sadd_member = sadd_member_model;
  sismember_law = sismember_model;
}
