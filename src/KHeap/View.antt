-- ===== src/KHeap/View.antt =====
-- How the memory determines the pieces of a heap of IcarusOS/kheap.c.
use cmsi.Base.{ℕ, ◌+◌, ◌≡◌, refl, sym, ◌∙◌, arith}
use cmsi.Base.{Bool, true, false, some, List, [], ◌∷◌}
use mathlib.Core.Path.{subst}
use cmsi.Memory.{Memory}
use cmsi.Kernel.{Kernel, Heap}
use cmsi.KHeap.Pieces.{Piece, PieceAt, Tiles, total-Tiles, flag}
use cmsi.KHeap.WellFormed.{WellFormed}

flag-injective : (b c : Bool) → flag b ≡ flag c → b ≡ c
flag-injective true true h = refl
flag-injective true false h = absurd (omega arith)
flag-injective false true h = absurd (omega arith)
flag-injective false false h = refl

PieceAt-unique :
    (m : Memory) (top a : ℕ) (p q : Piece) → PieceAt m top a p → PieceAt m top a q → p ≡ q
PieceAt-unique m top a p q x y =
    let size : p.size ≡ q.size = sym x.sized ∙ y.sized in
    let hole : p.is_hole ≡ q.is_hole = flag-injective p.is_hole q.is_hole (sym x.hole ∙ y.hole) in
    λ i. record { size = size i; is_hole = hole i }

pub Tiles-unique :
    (m : Memory) (top a e : ℕ) (ps qs : List Piece)
    → Tiles m top a ps e
    → Tiles m top a qs e
    → ps ≡ qs
Tiles-unique m top a e [] [] t u = refl
Tiles-unique m top a e [] (q ∷ qs) t (at, u) =
    absurd (omega (arith, total-Tiles m top (a + q.size) qs e u, at.room, t))
Tiles-unique m top a e (p ∷ ps) [] (at, t) u =
    absurd (omega (arith, total-Tiles m top (a + p.size) ps e t, at.room, u))
Tiles-unique m top a e (p ∷ ps) (q ∷ qs) (at, t) (at', u) =
    let same = PieceAt-unique m top a p q at at' in
    let rest =
      Tiles-unique m top (a + p.size) e ps qs t
        (subst (λ (x : Piece). Tiles m top (a + x.size) qs e) (sym same) u) in
    λ i. same i ∷ rest i

some-injective : (g h : Heap) → some g ≡ some h → g ≡ h
some-injective g h e = cc

pub WellFormed-heap :
    (k : Kernel) (g h : Heap) (ps qs : List Piece) → WellFormed k g ps → WellFormed k h qs → g ≡ h
WellFormed-heap k g h ps qs x y = some-injective g h (sym x.is_heap ∙ y.is_heap)

pub WellFormed-unique :
    (k : Kernel) (g h : Heap) (ps qs : List Piece) → WellFormed k g ps → WellFormed k h qs → ps ≡ qs
WellFormed-unique k g h ps qs x y =
    let same = WellFormed-heap k g h ps qs x y in
    Tiles-unique k.memory g.end_address g.start_address g.end_address ps qs x.tiled (
      subst (λ (z : Heap). Tiles k.memory z.end_address z.start_address qs z.end_address) (sym same)
        y.tiled)
