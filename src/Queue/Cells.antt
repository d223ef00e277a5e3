-- ===== src/Queue/Cells.antt =====
-- The linked list of src/SERVER/zt_queue.c: the cells that a pointer leads to.
use zam_tok.Prelude.{
  ℕ, ◌+◌, ◌≤◌, true, false, List, [], ◌∷◌, ◌++◌, Option, none, some, ◌≡◌, ◌≢◌, inl, inr, refl, sym,
  ap, ◌∙◌, arith, ◌==◌, if◌then◌else◌, Bool-cases,
}
use zam_tok.Queue.{Node}

abbrev pub Cells : Type 0 → Type 0
Cells A = ℕ → Option (Node A)

abbrev pub node : {A : Type 0} → A → Option ℕ → Option (Node A)
node a next = some (record { address_info = a; next = next })

-- The list from the cell f on holds the entries, and r is its last cell.
abbrev pub Segment : {A : Type 0} → Cells A → ℕ → A → List A → ℕ → Type 0
Segment c f y [] r = (f ≡ r) × (c f ≡ node y none)
Segment c f y (z ∷ zs) r = (g : ℕ) × (c f ≡ node y (some g)) × Segment c g z zs r

abbrev pub Chain : {A : Type 0} → Cells A → Option ℕ → Option ℕ → List A → Type 0
Chain c front rear [] = (front ≡ none) × (rear ≡ none)
Chain c front rear (y ∷ ys) =
    (f : ℕ) × (r : ℕ) × (front ≡ some f) × (rear ≡ some r) × Segment c f y ys r

pub self_eq : (n : ℕ) → (n == n) ≡ true
self_eq n = ground arith

module _ {A : Type 0} where
  same_value : {a b : A} {o : Option ℕ} → node a o ≡ node b o → a ≡ b
  same_value h = cc

  pub last_node :
      (c : Cells A) (f : ℕ) (y : A) (ys : List A) (r : ℕ)
      → Segment c f y ys r
      → (w : A) × (c r ≡ node w none)
  last_node c f y [] r (e, h) = (y, ap c (sym e) ∙ h)
  last_node c f y (z ∷ zs) r (g, h, s) = last_node c g z zs r s

  -- The cells with a node linked behind the last one.
  abbrev pub linked : Cells A → ℕ → A → ℕ → A → Cells A
  linked c r w n x j = if j == r then node w (some n) else (if j == n then node x none else c j)

  none-ne-node : (a : A) (next : Option ℕ) {o : Option (Node A)} → o ≡ none → o ≢ node a next
  none-ne-node a next h e = cc

  next-ne-last : (a b : A) (g : ℕ) {o : Option (Node A)} → o ≡ node a (some g) → o ≢ node b none
  next-ne-last a b g h e = cc

  kept_cell :
      (c : Cells A) (r : ℕ) (w : A) (n : ℕ) (x : A) (f g : ℕ) (y : A)
      → c r ≡ node w none
      → c n ≡ none
      → c f ≡ node y (some g)
      → linked c r w n x f ≡ node y (some g)
  kept_cell c r w n x f g y last fresh h = elim (Bool-cases (f == r)) [
    | inl e ↦ let same : f ≡ r = ground arith in absurd (next-ne-last y w g h (ap c same ∙ last))
    | inr e ↦ elim (Bool-cases (f == n)) [
      | inl e' ↦
          let same : f ≡ n = ground arith in absurd (none-ne-node y (some g) (ap c same ∙ fresh) h)
      | inr e' ↦ rw (e, e') h
    ]
  ]

  fresh_apart : (c : Cells A) (n r : ℕ) (w : A) → c n ≡ none → c r ≡ node w none → (n == r) ≡ false
  fresh_apart c n r w fresh last = elim (Bool-cases (n == r)) [
    | inl e ↦
        let same : n ≡ r = ground arith in
        absurd (none-ne-node w none (ap c (sym same) ∙ fresh) last)
    | inr e ↦ e
  ]

  linked_last :
      (c : Cells A) (n r : ℕ) (w x : A) → (n == r) ≡ false → linked c r w n x n ≡ node x none
  linked_last c n r w x e = rw (e, self_eq n) refl

  pub Segment-linked :
      (c : Cells A) (f : ℕ) (y : A) (ys : List A) (r n : ℕ) (w x : A)
      → Segment c f y ys r
      → c r ≡ node w none
      → c n ≡ none
      → Segment (linked c r w n x) f y (ys ++ x ∷ []) n
  Segment-linked c f y [] r n w x (e, h) last fresh =
      let here : c r ≡ node y none = ap c (sym e) ∙ h in
      (
        n,
        ap (linked c r w n x) e
            ∙ rw (self_eq r) (ap (λ a. node a (some n)) (same_value (sym last ∙ here))),
        (refl, linked_last c n r w x (fresh_apart c n r w fresh last)),
      )
  Segment-linked c f y (z ∷ zs) r n w x (g, h, s) last fresh =
      (g, kept_cell c r w n x f g y last fresh h, Segment-linked c g z zs r n w x s last fresh)

  pub linked_unused :
      (c : Cells A) (n r : ℕ) (w x : A) (j : ℕ)
      → c r ≡ node w none
      → (c j ≡ none)
      → n + 1 ≤ j
      → linked c r w n x j ≡ none
  linked_unused c n r w x j last h k =
      let other : (j == n) ≡ false = ground arith in rw (fresh_apart c j r w h last, other) h
