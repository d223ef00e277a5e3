-- ===== src/Loop/Tables.antt =====
-- The two records of the clients, the bits of `g_client_fd` and the descriptors that epoll watches.
use zam_tok.Prelude.{
  ℕ, zero, suc, ◌≤◌, ◌<◌, ℤ, pos, negsuc, Bool, true, false, not, ◌&&◌, List, [], ◌∷◌, ◌≡◌, ◌≢◌,
  ◌↔◌, refl, ◌∙◌, arith, ◌==◌, if◌then◌else◌, length, get_or, set,
}
use zam_tok.Loop.{fd_eq, without, is_among, client_bits, is_client}

pub fd_eq_iff : (a b : ℤ) → (fd_eq a b ≡ true) ↔ (a ≡ b)
fd_eq_iff (pos a) (pos b) = ground arith
fd_eq_iff (pos a) (negsuc b) = ground arith
fd_eq_iff (negsuc a) (pos b) = ground arith
fd_eq_iff (negsuc a) (negsuc b) = ground arith

is_among-without :
    (a b : ℤ) (l : List ℤ) → is_among a (without b l) ≡ (not (fd_eq b a) && is_among a l)
unfolding is_among without
is_among-without a b [] = ground arith
is_among-without a b (x ∷ l) =
    ground (arith, is_among-without a b l, fd_eq_iff x b, fd_eq_iff x a, fd_eq_iff b a)

get_or-set :
    (xs : List Bool) (i j : ℕ) (v : Bool)
    → i < length xs
    → get_or (set xs i v) j false ≡ (if i == j then v else get_or xs j false)
get_or-set [] i j v h = absurd (omega arith)
get_or-set (x ∷ xs) zero zero v h = ground arith
get_or-set (x ∷ xs) zero (suc j) v h = ground arith
get_or-set (x ∷ xs) (suc i) zero v h = ground arith
get_or-set (x ∷ xs) (suc i) (suc j) v h = ground (arith, get_or-set xs i j v)

get_or_beyond : (xs : List Bool) (i : ℕ) → length xs ≤ i → get_or xs i false ≡ false
get_or_beyond [] i h = refl
get_or_beyond (x ∷ xs) zero h = absurd (omega arith)
get_or_beyond (x ∷ xs) (suc i) h = get_or_beyond xs i (omega arith)

length-set : (xs : List Bool) (i : ℕ) (v : Bool) → length (set xs i v) ≡ length xs
length-set [] i v = refl
length-set (x ∷ xs) zero v = refl
length-set (x ∷ xs) (suc i) v = omega (arith, length-set xs i v)

-- The bits are those of the watched descriptors other than the listening socket, which has none.
pub record Mirrors (socket : ℤ) (bits : List Bool) (watched : List ℤ) : Type 0 where
  pub sized : length bits ≡ client_bits
  pub mirrored : (n : ℕ) → socket ≢ pos n → get_or bits n false ≡ is_among (pos n) watched

pub watch-Mirrors :
    (socket : ℤ) (bits : List Bool) (watched : List ℤ) (n : ℕ)
    → n < client_bits
    → Mirrors socket bits watched
    → Mirrors socket (set bits n true) (pos n ∷ watched)
unfolding is_among
watch-Mirrors socket bits watched n lt h = record {
  sized = length-set bits n true ∙ h.sized;
  mirrored = λ m other. ground (arith, get_or-set bits n m true, h.sized, h.mirrored m other);
}

pub unwatch-Mirrors :
    (socket : ℤ) (bits : List Bool) (watched : List ℤ) (n : ℕ)
    → n < client_bits
    → Mirrors socket bits watched
    → Mirrors socket (set bits n false) (without (pos n) watched)
unwatch-Mirrors socket bits watched n lt h = record {
  sized = length-set bits n false ∙ h.sized;
  mirrored = λ m other. ground (
    arith,
    get_or-set bits n m false,
    h.sized,
    h.mirrored m other,
    is_among-without (pos m) (pos n) watched,
  );
}

-- A descriptor that has no bit is not among the watched ones.
pub outside-Mirrors :
    (socket : ℤ) (bits : List Bool) (watched : List ℤ) (fd : ℤ)
    → is_client fd ≡ false
    → Mirrors socket bits watched
    → Mirrors socket bits (without fd watched)
outside-Mirrors socket bits watched fd out h = record {
  sized = h.sized;
  mirrored = λ m other. ground (
    arith,
    h.sized,
    h.mirrored m other,
    is_among-without (pos m) fd watched,
    fd_eq_iff fd (pos m),
    get_or_beyond bits m,
  );
}
