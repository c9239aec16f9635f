-- ===== src/KHeap/Held.antt =====
-- The blocks among the pieces of a heap, by their addresses.
use cmsi.Base.{ℕ, ◌+◌, ◌-◌, ◌≤◌, ◌≡◌, ◌≢◌, ◌⊎◌, inl, inr, arith, Bool-cases}
use cmsi.Base.{true, false, List, [], ◌∷◌, ◌++◌, ltb}
use mathlib.Core.Path.{subst}
use cmsi.KHeap.Pieces.{Piece, piece, total}
use cmsi.KHeap.WellFormed.{carve}

-- Among the pieces from `a` on there is a block of size `s` at `x`.
abbrev pub Held : (a : ℕ) → List Piece → (x s : ℕ) → Type 0
Held a [] x s = ⊥
Held a (p ∷ ps) x s = ((x ≡ a) × (p.size ≡ s) × (p.is_hole ≡ false)) ⊎ Held (a + p.size) ps x s

Held-bounds : (a : ℕ) (ps : List Piece) (x s : ℕ) → Held a ps x s → (a ≤ x) × (x + s ≤ a + total ps)
Held-bounds a [] x s h = elim h [ ]
Held-bounds a (p ∷ ps) x s (inl (e, f, _)) = omega arith
Held-bounds a (p ∷ ps) x s (inr h) = omega (arith, Held-bounds (a + p.size) ps x s h)

Held-left : (a : ℕ) (ps qs : List Piece) (x s : ℕ) → Held a ps x s → Held a (ps ++ qs) x s
Held-left a [] qs x s h = elim h [ ]
Held-left a (p ∷ ps) qs x s (inl h) = inl h
Held-left a (p ∷ ps) qs x s (inr h) = inr (Held-left (a + p.size) ps qs x s h)

Held-right :
    (a : ℕ) (ps qs : List Piece) (x s : ℕ) → Held (a + total ps) qs x s → Held a (ps ++ qs) x s
Held-right a [] qs x s h = subst (λ b. Held b qs x s) (omega arith) h
Held-right a (p ∷ ps) qs x s h =
    inr (Held-right (a + p.size) ps qs x s (subst (λ b. Held b qs x s) (omega arith) h))

Held-append :
    (a : ℕ) (ps qs : List Piece) (x s : ℕ)
    → Held a (ps ++ qs) x s
    → Held a ps x s ⊎ Held (a + total ps) qs x s
Held-append a [] qs x s h = inr (subst (λ b. Held b qs x s) (omega arith) h)
Held-append a (p ∷ ps) qs x s (inl h) = inl (inl h)
Held-append a (p ∷ ps) qs x s (inr h) = elim (Held-append (a + p.size) ps qs x s h) [
  | inl left ↦ inl (inr left)
  | inr right ↦ inr (subst (λ b. Held b qs x s) (omega arith) right)
]

-- Where pieces are replaced by others of the same size, a block that is not one of them stays, and lies
-- apart from them.
pub Held-replace :
    (a : ℕ) (before old new after : List Piece) (x s : ℕ)
    → total new ≡ total old
    → ¬ Held (a + total before) old x s
    → Held a (before ++ (old ++ after)) x s
    → Held a (before ++ (new ++ after)) x s
      × ((x + s ≤ a + total before) ⊎ (a + total before + total old ≤ x))
Held-replace a before old new after x s same other h =
    elim (Held-append a before (old ++ after) x s h) [
      | inl front ↦ (
        Held-left a before (new ++ after) x s front,
        inl (omega (arith, Held-bounds a before x s front)),
      )
      | inr rest ↦ elim (Held-append (a + total before) old after x s rest) [
        | inl here ↦ absurd (other here)
        | inr behind ↦
            let there : a + total before + total old ≡ a + total before + total new = omega arith in
            (
              Held-right a before (new ++ after) x s (
                  Held-right (a + total before) new after x s
                    (subst (λ b. Held b after x s) there behind)),
              inr (omega (arith, Held-bounds (a + total before + total old) after x s behind)),
            )
      ]
    ]

-- A hole is no block.
pub hole-Held : (a size x s : ℕ) → ¬ Held a (piece size true ∷ []) x s
hole-Held a size x s (inl (_, _, h)) = absurd (ground arith)
hole-Held a size x s (inr h) = h

-- Nor is a block at another address.
pub other-Held : (a size x s : ℕ) → x ≢ a → ¬ Held a (piece size false ∷ []) x s
other-Held a size x s ne (inl (h, _, _)) = ne h
other-Held a size x s ne (inr h) = h

-- Nor are a hole and a block at another address.
pub pair-Held :
    (a : ℕ) (q : Piece) (size x s : ℕ)
    → q.is_hole ≡ true
    → x ≢ a + q.size
    → ¬ Held a (q ∷ piece size false ∷ []) x s
pair-Held a q size x s hole ne (inl (_, _, h)) = absurd (ground (arith, hole, h))
pair-Held a q size x s hole ne (inr h) = other-Held (a + q.size) size x s ne h

pub total-carve : (s n : ℕ) → n ≤ s → total (carve s n) ≡ s
unfolding carve
total-carve s n h = elim (Bool-cases (ltb (s - n) 20)) [
  | inl small ↦ rw small (omega arith)
  | inr large ↦ rw large (omega arith)
]
