-- ===== src/Util/Json.antt =====
-- Reading a string field out of a JSON text, seen as segments between quotes.
use zam_tok.Prelude.{
  ℕ, ◌<◌, true, false, List, [], ◌∷◌, ◌++◌, some, Bytes, codes, subst, ◌≡◌, ◌≢◌, refl, ap, ◌∙◌,
  arith, length, drop, drop-append, All, append_assoc,
}
use zam_tok.CString.{is_prefix, strstr, strchr, skip_ws}
use zam_tok.CString.Search.{
  is_prefix-append, strstr_self, strstr-skip, Free, strchr-append, take_until-append,
}
use zam_tok.Util.{
  after_key, value_at, quoted, msg_get_json_string_field_helper, msg_copy_json_string_field,
}

abbrev pub NoQuote : Bytes → Type 0
NoQuote = Free b'"'

-- A quote before each segment.
abbrev pub segments : List Bytes → Bytes
segments [] = []
segments (s ∷ r) = b'"' ∷ (s ++ segments r)

-- A key as the program spells it, between its quotes.
abbrev pub quote : Bytes → Bytes
quote k = b'"' ∷ (k ++ b'"' ∷ [])

other_segment :
    (k s : Bytes) (r : List Bytes)
    → NoQuote k
    → NoQuote s
    → k ≢ s
    → is_prefix (k ++ b'"' ∷ []) (s ++ segments r) ≡ false
unfolding is_prefix
other_segment [] [] r hk hs ne = absurd (ne refl)
other_segment [] (c ∷ s) r hk (p, hs) ne = ground arith
other_segment (a ∷ k) [] [] hk hs ne = refl
other_segment (a ∷ k) [] (t ∷ r) (p, hk) hs ne = ground arith
other_segment (a ∷ k) (c ∷ s) r (p, hk) (q, hs) ne = ground (arith, other_segment k s r hk hs)

-- Inside a segment there is no quote at which the key could start.
skip_segment : (k s t : Bytes) → NoQuote s → strstr (s ++ t) (quote k) ≡ strstr t (quote k)
skip_segment k [] t h = refl
skip_segment k (c ∷ s) t (p, h) =
    strstr-skip (quote k) (s ++ t) c (unfold is_prefix in ground arith) ∙ skip_segment k s t h

next_segment :
    (k s : Bytes) (r : List Bytes)
    → NoQuote k
    → NoQuote s
    → k ≢ s
    → strstr (segments (s ∷ r)) (quote k) ≡ strstr (segments r) (quote k)
next_segment k s r hk hs ne =
    strstr-skip (quote k) (s ++ segments r) b'"'
      (unfold is_prefix in ground (arith, other_segment k s r hk hs ne))
    ∙ skip_segment k s (segments r) hs

-- The segments before the key: without a quote, and none of them is the key.
abbrev pub IsBefore : Bytes → List Bytes → Type 0
IsBefore k = All (λ s. NoQuote s × (k ≢ s))

find_key :
    (k : Bytes) (before r : List Bytes)
    → NoQuote k
    → IsBefore k before
    → strstr (segments (before ++ k ∷ r)) (quote k) ≡ strstr (segments (k ∷ r)) (quote k)
find_key k [] r hk h = refl
find_key k (s ∷ before) r hk ((p, ne), h) =
    next_segment k s (before ++ k ∷ r) hk p ne ∙ find_key k before r hk h

quoted-closed : (v t : Bytes) → NoQuote v → quoted (v ++ b'"' ∷ t) ≡ some v
unfolding quoted
quoted-closed v t h = rw (strchr-append b'"' v t h, quoted) (ap some (take_until-append b'"' v t h))

read_value :
    (v s : Bytes) (r : List Bytes)
    → NoQuote v
    → after_key (codes ": " ++ segments (v ∷ s ∷ r)) ≡ some v
unfolding after_key value_at strchr skip_ws
read_value v s r h = quoted-closed v (s ++ segments r) h

found_key :
    (body key : Bytes) {t : Bytes}
    → strstr body key ≡ some t
    → msg_get_json_string_field_helper body key ≡ after_key (drop (length key) t)
unfolding msg_get_json_string_field_helper
found_key body key e = rw (e, msg_get_json_string_field_helper)

regroup_key : (k : Bytes) (t : Bytes) → quote k ++ t ≡ b'"' ∷ (k ++ b'"' ∷ t)
regroup_key k t = ap (◌∷◌ b'"') (append_assoc k (b'"' ∷ []) t)

drop-quote : (k t : Bytes) → drop (length (quote k)) (b'"' ∷ (k ++ b'"' ∷ t)) ≡ t
drop-quote k t = rw (← regroup_key k t) (drop-append (quote k) t)

-- The field is read back, whatever stands behind it, if nothing before it is the key.
pub read_field :
    (k v front s : Bytes) (before r : List Bytes)
    → NoQuote k
    → NoQuote v
    → NoQuote front
    → IsBefore k before
    → msg_get_json_string_field_helper
        (front ++ segments (before ++ k ∷ codes ": " ∷ v ∷ s ∷ r))
        (quote k)
      ≡ some v
read_field k v front s before r hk hv hf hb =
    let rest = codes ": " ++ segments (v ∷ s ∷ r) in
    let found : strstr (front ++ segments (before ++ k ∷ codes ": " ∷ v ∷ s ∷ r)) (quote k)
        ≡ some (b'"' ∷ (k ++ b'"' ∷ rest)) =
      skip_segment k front _ hf
      ∙ find_key k before (codes ": " ∷ v ∷ s ∷ r) hk hb
      ∙ strstr_self (quote k) _ (
          subst (λ s. is_prefix (quote k) s ≡ true) (regroup_key k rest)
            (is_prefix-append (quote k) rest)) in
    found_key _ (quote k) found ∙ ap after_key (drop-quote k rest) ∙ read_value v s r hv

copied :
    (body key : Bytes) {v : Bytes} (n : ℕ)
    → msg_get_json_string_field_helper body key ≡ some v
    → 0 < length v
    → length v < n
    → msg_copy_json_string_field body key n ≡ some v
unfolding msg_copy_json_string_field
copied body key n e positive fits = ground arith

-- A field of a JSON object printed as the client prints it is copied out: whatever stands behind it,
-- the value between the quotes after the key is found, if neither key, value nor front has a quote, no
-- segment between quotes before it is the key, and the value is not empty and fits the buffer.
pub copy_field :
    (k v front s : Bytes) (before r : List Bytes) (n : ℕ)
    → NoQuote k
    → NoQuote v
    → NoQuote front
    → IsBefore k before
    → 0 < length v
    → length v < n
    → msg_copy_json_string_field
        (front ++ segments (before ++ k ∷ codes ": " ∷ v ∷ s ∷ r))
        (quote k)
        n
      ≡ some v
copy_field k v front s before r n hk hv hf hb positive fits =
    copied _ (quote k) n (read_field k v front s before r hk hv hf hb) positive fits
