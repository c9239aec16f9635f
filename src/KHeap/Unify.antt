-- ===== src/KHeap/Unify.antt =====
-- `unify_left` and `unify_right` of `free`, by the pieces beside the block.
use cmsi.Base.{ℕ, ◌+◌, ◌-◌, ◌^◌, ◌≤◌, ◌<◌, ◌≡◌, refl, inl, inr, ap, ◌∙◌, arith}
use cmsi.Base.{true, false, List, [], ◌∷◌, ◌++◌, ◌⊎◌}
use mathlib.Core.Path.{subst}
use cmsi.Base.Words.{add32, sub32}
use cmsi.Base.Outcome.{ok}
use cmsi.Memory.{Memory, load32, store32}
use cmsi.Memory.Access.{load32-store32_ne}
use cmsi.Kernel.{Kernel}
use cmsi.KHeap.Layout.{heap_magic, get_magic, get_header, get_size}
use cmsi.KHeap.Release.{unify_left, unify_right}
use cmsi.KHeap.Pieces.{Piece, total, holes, count, count-append, holes-append}
use cmsi.KHeap.Pieces.{Tiles, PieceAt, agree-PieceAt, Tiles-append, agree-Tiles, HasFoot}
use cmsi.KHeap.Pieces.{total-Tiles}

-- Three pieces in a row.
pub Tiles-three :
    (m : Memory) (top a h : ℕ) (ps : List Piece) (q p r : Piece) (qs : List Piece) (e : ℕ)
    → h ≡ a + total ps
    → Tiles m top a (ps ++ q ∷ p ∷ r ∷ qs) e
    → PieceAt m top h q
      × PieceAt m top (h + q.size) p
      × PieceAt m top (h + q.size + p.size) r
      × (h + q.size + p.size + r.size ≤ e)
Tiles-three m top a h [] q p r qs e place (at, (at₂, (at₃, t))) =
    let here : a ≡ h = omega arith in
    (
      subst (λ x. PieceAt m top x q) here at,
      subst (λ x. PieceAt m top (x + q.size) p) here at₂,
      subst (λ x. PieceAt m top (x + q.size + p.size) r) here at₃,
      omega (arith, total-Tiles m top (a + q.size + p.size + r.size) qs e t),
    )
Tiles-three m top a h (o ∷ ps) q p r qs e place (at, t) =
    Tiles-three m top (a + o.size) h ps q p r qs e (omega arith) t

Tiles-drop :
    (m : Memory) (top a : ℕ) (ps qs : List Piece) (e : ℕ)
    → Tiles m top a (ps ++ qs) e
    → Tiles m top (a + total ps) qs e
Tiles-drop m top a [] qs e t = subst (λ x. Tiles m top x qs e) (omega arith) t
Tiles-drop m top a (p ∷ ps) qs e (at, t) =
    subst (λ x. Tiles m top x qs e) (omega arith) (Tiles-drop m top (a + p.size) ps qs e t)

-- Writing inside a run of pieces: new pieces take its place, and the others stay.
pub Tiles-rewrite :
    (m n : Memory) (top a h : ℕ) (ps old new qs : List Piece) (e : ℕ)
    → h ≡ a + total ps
    → ((b : ℕ) → (b < h) ⊎ (h + total old ≤ b) → n b ≡ m b)
    → Tiles n top h new (h + total old)
    → Tiles m top a (ps ++ (old ++ qs)) e
    → Tiles n top a (ps ++ (new ++ qs)) e
Tiles-rewrite m n top a h [] old new qs e place same t u =
    let here : h ≡ a = omega arith in
    Tiles-append n top a new qs (a + total old) e
      (subst (λ x. Tiles n top x new (x + total old)) here t)
      (agree-Tiles m n top (a + total old) qs e (λ b l k. same b (omega arith))
        (Tiles-drop m top a old qs e u))
Tiles-rewrite m n top a h (q ∷ ps) old new qs e place same t (at, u) = (
  agree-PieceAt m n top a q (λ b l k. same b (omega arith)) at,
  Tiles-rewrite m n top (a + q.size) h ps old new qs e (omega arith) same t u,
)

pub count-holes_run :
    (x a h : ℕ) (ps old qs : List Piece)
    → h ≡ a + total ps
    → count x (holes a (ps ++ (old ++ qs)))
      ≡ count x (holes a ps) + count x (holes h old) + count x (holes (h + total old) qs)
count-holes_run x a h ps old qs place = omega (
  arith,
  ap (count x) (holes-append a h ps (old ++ qs) place),
  ap (count x) (holes-append h (h + total old) old qs refl),
  count-append x (holes a ps) (holes h (old ++ qs)),
  count-append x (holes h old) (holes (h + total old) qs),
)

-- A piece that does not end the heap has its footer.
footed :
    (m : Memory) (top a : ℕ) (q : Piece)
    → a + q.size < top
    → HasFoot m top a q
    → (get_magic m (a + q.size - 8) ≡ heap_magic) × (get_header m (a + q.size - 8) ≡ a)
footed m top a q below (inl (hole, end)) = absurd (omega arith)
footed m top a q below (inr foot) = foot

module _ (k : Kernel) (top a h footer : ℕ) (q : Piece) (at : PieceAt k.memory top a q)
    (next : a + q.size ≡ h) (below : h < top) (word : top < 2 ^ 32) where
  left_footer : (get_magic k.memory (h - 8) ≡ heap_magic) × (get_header k.memory (h - 8) ≡ a)
  left_footer =
      subst (λ x. (get_magic k.memory (x - 8) ≡ heap_magic) × (get_header k.memory (x - 8) ≡ a))
        next (footed k.memory top a q (omega arith) at.foot)

  pub unify_left-block : q.is_hole ≡ false → unify_left h footer k ≡ ok ((h, true), k)
  unfolding unify_left
  unify_left-block block =
      let (magic, header) = left_footer in
      let test : sub32 h 8 ≡ h - 8 = omega (arith, at.room) in
      simp (test, magic, header, at.hole, block)

  pub unify_left-hole :
      (s : ℕ)
      → q.is_hole ≡ true
      → get_size k.memory h ≡ s
      → q.size + s < 2 ^ 32
      → h ≤ footer
      → unify_left h footer k
        ≡ ok (
          (a, false),
          record k { memory = store32 (store32 k.memory (footer + 4) a) (a + 8) (q.size + s) },
        )
  unfolding unify_left
  unify_left-hole s hole sized fits behind =
      let (magic, header) = left_footer in
      let test : sub32 h 8 ≡ h - 8 = omega (arith, at.room) in
      let size : load32 (store32 k.memory (footer + 4) a) (a + 8) ≡ q.size =
        load32-store32_ne k.memory (footer + 4) a (a + 8) (omega (arith, at.room)) ∙ at.sized in
      let sum : add32 q.size s ≡ q.size + s = omega arith in
      simp (test, magic, header, at.hole, hole, sized, size, sum)

-- No hole behind the footer.
pub unify_right-block :
    (k : Kernel) (top header footer t : ℕ) (r : Piece)
    → footer + 8 ≡ t
    → PieceAt k.memory top t r
    → t < 2 ^ 32
    → r.is_hole ≡ false
    → unify_right header footer k ≡ ok (footer, k)
unfolding unify_right
unify_right-block k top header footer t r e at word block =
    let test : add32 footer 8 ≡ t = omega arith in simp (test, at.magic, at.hole, block)
