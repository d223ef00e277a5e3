-- ===== src/Http/RoomIds.antt =====
-- The ids that `http_make_room_id` of src/SERVER/zt_http.c makes of a room's and a user's.
use zam_tok.Prelude.{
  ℕ, ◌+◌, ◌<◌, [], ◌∷◌, ◌++◌, none, some, Bytes, codes, ◌≡◌, ◌⊎◌, ◌↔◌, inl, inr, refl, sym, ap, ◌∙◌,
  arith, length, ◌==◌, leb, if◌then◌else◌, append_assoc, length-append,
}
use zam_tok.Http.Helpers.{http_make_room_id}

-- What is printed for a room and a user.
abbrev pub printed : Bytes → Bytes → Bytes
printed room user = room ++ (codes "_" ++ user)

-- The first room is the longer one: it is the second behind which the rest follows, the first piece of the
-- second user.
abbrev pub IsCut : Bytes → Bytes → Bytes → Bytes → Type 0
IsCut a u b v = (m : Bytes) × (a ≡ printed b m) × (v ≡ printed m u)

-- The two are the same, or an underscore of one of them is taken for that between the two.
abbrev pub IsConfused : Bytes → Bytes → Bytes → Bytes → Type 0
IsConfused a u b v = ((a ≡ b) × (u ≡ v)) ⊎ (IsCut a u b v ⊎ IsCut b v a u)

IsConfused-cons :
    (x y : ℕ) (a u b v : Bytes) → x ≡ y → IsConfused a u b v → IsConfused (x ∷ a) u (y ∷ b) v
IsConfused-cons x y a u b v h (inl (e, k)) = inl (cc, k)
IsConfused-cons x y a u b v h (inr (inl (m, e, k))) = inr (inl (m, cc, k))
IsConfused-cons x y a u b v h (inr (inr (m, e, k))) = inr (inr (m, cc, k))

confused : (a u b v : Bytes) → printed a u ≡ printed b v → IsConfused a u b v
confused [] u [] v e = inl (refl, cc)
confused [] u (y ∷ b) v e = inr (inr (b, cc, cc))
confused (x ∷ a) u [] v e = inr (inl (a, cc, cc))
confused (x ∷ a) u (y ∷ b) v e = IsConfused-cons x y a u b v (cc) (confused a u b v (cc))

printed-IsCut : (a u b v : Bytes) → IsCut a u b v → printed a u ≡ printed b v
printed-IsCut a u b v (m, e, k) = rw (e, k) (append_assoc b (codes "_" ++ m) (codes "_" ++ u))

printed-IsConfused : (a u b v : Bytes) → IsConfused a u b v → printed a u ≡ printed b v
printed-IsConfused a u b v (inl (e, k)) = rw (e, k) refl
printed-IsConfused a u b v (inr (inl h)) = printed-IsCut a u b v h
printed-IsConfused a u b v (inr (inr h)) = sym (printed-IsCut b v a u h)

made :
    (a u : Bytes) (n : ℕ)
    → length a + (length u + 1) < n
    → http_make_room_id a u n ≡ some (printed a u)
unfolding http_make_room_id
made a u n h = ground (arith, length-append {0} a (codes "_" ++ u))

made_of : (b v : Bytes) (n : ℕ) {id : Bytes} → http_make_room_id b v n ≡ some id → printed b v ≡ id
unfolding http_make_room_id
made_of b v n e = ground arith

-- If the room a of the user u has an id, because the two fit into the array with the underscore between
-- them, the room b of the user v is given the same id exactly if they are the same room and user, or an
-- underscore within the one is taken for the separator of the other: the longer room id is the shorter
-- one, an underscore and some text m, and the user id of the shorter one is m, an underscore and the user
-- id of the longer one.
pub http_make_room_id_clash :
    (a u b v : Bytes) (n : ℕ)
    → length a + (length u + 1) < n
    → (http_make_room_id b v n ≡ http_make_room_id a u n) ↔ IsConfused a u b v
unfolding http_make_room_id
http_make_room_id_clash a u b v n h = (
  λ e. confused a u b v (sym (made_of b v n (e ∙ made a u n h))),
  λ k.
      ap (λ whole. if n == 0 then none else if leb n (length whole) then none else some whole)
        (sym (printed-IsConfused a u b v k)),
)
