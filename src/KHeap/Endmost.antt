-- ===== src/KHeap/Endmost.antt =====
-- Which hole the loop of `alloc` in IcarusOS/kheap.c finds that looks for the endmost header.
use cmsi.Base.{ℕ, zero, suc, ◌+◌, ◌≤◌, ◌<◌, ◌≡◌, ◌⊎◌, inl, inr, refl, sym, ap, ◌∙◌, arith}
use cmsi.Base.{false, List, [], ◌∷◌, ◌++◌, ltb, ◌==◌, ◌&&◌, if◌then◌else◌, Bool-cases, get_or}
use mathlib.Core.Path.{subst}
use cmsi.Base.Outcome.{ok}
use cmsi.Memory.{Memory}
use cmsi.OrderedArray.{OrderedArray, lookup_ordered_array}
use cmsi.OrderedArray.Spec.{IsValid}
use cmsi.OrderedArray.Remove.{lookup_ordered_array_lem}
use cmsi.KHeap.Search.{endmost_from}
use cmsi.KHeap.Pieces.{Piece, total, holes, count, Tiles, total-Tiles}

-- What the loop comes to from cell `from` on, if `idx` and `value` are the best so far.
abbrev pub IsEndmost : (cells : List ℕ) → (from size idx value r : ℕ) → Type 0
IsEndmost cells from size idx value r =
    ((r ≡ idx) × ((j : ℕ) → from ≤ j → j < size → get_or cells j 0 ≤ value))
    ⊎ ((r < size)
        × (value < get_or cells r 0)
        × ((j : ℕ) → from ≤ j → j < size → get_or cells j 0 ≤ get_or cells r 0))

endmost_from-step :
    (index : OrderedArray Memory) (n iterator idx value : ℕ)
    → IsValid index
    → iterator < index.size
    → endmost_from index (suc n) iterator idx value
      ≡ endmost_from index n
          (iterator + 1)
          (if ltb value (get_or index.cells iterator 0) then iterator else idx)
          (if ltb value (get_or index.cells iterator 0)
            then get_or index.cells iterator 0
            else value)
unfolding endmost_from
endmost_from-step index n iterator idx value valid below =
    let found : lookup_ordered_array iterator index ≡ ok (get_or index.cells iterator 0) =
      ground (arith, lookup_ordered_array_lem iterator valid) in
    simp found

pub endmost_from-IsEndmost :
    (index : OrderedArray Memory) (n iterator idx value : ℕ)
    → IsValid index
    → n + iterator ≡ index.size
    → (r : ℕ) × (endmost_from index n iterator idx value ≡ ok r)
      × IsEndmost index.cells iterator index.size idx value r
unfolding endmost_from
endmost_from-IsEndmost index zero iterator idx value valid e =
    (idx, refl, inl (refl, λ j l h. absurd (omega arith)))
endmost_from-IsEndmost index (suc n) iterator idx value valid e =
    let c = get_or index.cells iterator 0 in
    let step = endmost_from-step index n iterator idx value valid (omega arith) in
    elim (Bool-cases (ltb value c)) [
      | inl better ↦
          let (r, run, found) =
            endmost_from-IsEndmost index n (iterator + 1) iterator c valid (omega arith) in
          (r, step ∙ rw better run, better_IsEndmost c r (ground arith) found)
      | inr worse ↦
          let (r, run, found) =
            endmost_from-IsEndmost index n (iterator + 1) idx value valid (omega arith) in
          (r, step ∙ rw worse run, worse_IsEndmost c r (ground arith) found)
    ]
  where
    -- Cell `j` is the one at hand or a later one.
    at_hand :
        (v : ℕ)
        → get_or index.cells iterator 0 ≤ v
        → ((j : ℕ) → iterator + 1 ≤ j → j < index.size → get_or index.cells j 0 ≤ v)
        → (j : ℕ) → iterator ≤ j
        → j < index.size
        → get_or index.cells j 0 ≤ v
    at_hand v here later j l h = elim (Bool-cases (j == iterator)) [
      | inl same ↦ subst (λ (x : ℕ). get_or index.cells x 0 ≤ v) (sym (ground arith)) here
      | inr other ↦ later j (ground arith) h
    ]

    better_IsEndmost :
        (c r : ℕ)
        → value < get_or index.cells iterator 0
        → IsEndmost index.cells (iterator + 1) index.size iterator (get_or index.cells iterator 0) r
        → IsEndmost index.cells iterator index.size idx value r
    better_IsEndmost c r better (inl (same, later)) =
        let there : get_or index.cells r 0 ≡ get_or index.cells iterator 0 =
          ap (λ (x : ℕ). get_or index.cells x 0) same in
        inr (
          omega arith,
          omega arith,
          at_hand (get_or index.cells r 0) (omega arith)
              (λ j l h. omega (arith, later j l h, there)),
        )
    better_IsEndmost c r better (inr (low, more, later)) =
        inr (low, omega arith, at_hand (get_or index.cells r 0) (omega arith) later)

    worse_IsEndmost :
        (c r : ℕ)
        → get_or index.cells iterator 0 ≤ value
        → IsEndmost index.cells (iterator + 1) index.size idx value r
        → IsEndmost index.cells iterator index.size idx value r
    worse_IsEndmost c r worse (inl (same, later)) = inl (same, at_hand value worse later)
    worse_IsEndmost c r worse (inr (low, more, later)) =
        inr (low, more, at_hand (get_or index.cells r 0) (omega arith) later)

-- No piece is a hole.
abbrev pub NoHoles : List Piece → Type 0
NoHoles [] = Unit
NoHoles (p ∷ ps) = (p.is_hole ≡ false) × NoHoles ps

pub NoHoles-count : (x a : ℕ) (ps : List Piece) → NoHoles ps → count x (holes a ps) ≡ 0
NoHoles-count x a [] h = refl
NoHoles-count x a (p ∷ ps) (block, h) = rw block (NoHoles-count x (a + p.size) ps h)

-- A hole ends at the end of its pieces, or in front of it.
pub holes-below :
    (m : Memory) (top a e x : ℕ) (ps : List Piece)
    → Tiles m top a ps e
    → 0 < count x (holes a ps)
    → x + 20 ≤ e
holes-below m top a e x [] t h = absurd (omega arith)
holes-below m top a e x (p ∷ ps) (at, t) h = elim (Bool-cases (p.is_hole && (a == x))) [
  | inl here ↦
      let same : a ≡ x = ground arith in
      omega (arith, same, at.room, total-Tiles m top (a + p.size) ps e t)
  | inr later ↦ holes-below m top (a + p.size) e x ps t (ground arith)
]

pub Tiles-front :
    (m : Memory) (top a : ℕ) (ps qs : List Piece) (e : ℕ)
    → Tiles m top a (ps ++ qs) e
    → Tiles m top a ps (a + total ps)
Tiles-front m top a [] qs e t = omega arith
Tiles-front m top a (p ∷ ps) qs e (at, t) = (
  at,
  subst (λ x. Tiles m top (a + p.size) ps x) (omega arith)
      (Tiles-front m top (a + p.size) ps qs e t),
)
