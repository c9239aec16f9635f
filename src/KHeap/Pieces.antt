-- ===== src/KHeap/Pieces.antt =====
-- The heap as a sequence of pieces, blocks and holes, that tile the space between its start and its
-- end; and what memory holds where a piece lies.
use cmsi.Base.{ℕ, ◌+◌, ◌-◌, ◌^◌, ◌≤◌, ◌<◌, ◌≡◌, ◌⊎◌, inl, inr, ap, sym, ◌∙◌, arith}
use cmsi.Base.{Bool, true, false, List, [], ◌∷◌, ◌++◌, ◌==◌, if◌then◌else◌, Bool-cases, ◌&&◌}
use mathlib.Core.Path.{subst}
use cmsi.Memory.{Memory, store8, store32}
use cmsi.Memory.Access.{
  load8_agree, load32_agree, load32-store32_self, load32-store32_ne, load32-store8_ne,
}
use cmsi.Memory.Access.{load8-store8_self, load8-store32_ne, store32_outside, store8_outside}
use cmsi.KHeap.Layout.{heap_magic, get_magic, get_is_hole, get_size, get_header}

-- A piece's size, header and footer counted, and whether it is a hole.
pub record Piece : Type 0 where
  pub size : ℕ
  pub is_hole : Bool

abbrev pub piece : ℕ → Bool → Piece
piece s h = record { size = s; is_hole = h }

abbrev pub total : List Piece → ℕ
total [] = 0
total (p ∷ ps) = p.size + total ps

-- The addresses of the holes among the pieces from `a` on.
abbrev pub holes : ℕ → List Piece → List ℕ
holes a [] = []
holes a (p ∷ ps) = if p.is_hole then a ∷ holes (a + p.size) ps else holes (a + p.size) ps

-- How often an address is in a list.
abbrev pub count : ℕ → List ℕ → ℕ
count x [] = 0
count x (y ∷ ys) = (if y == x then 1 else 0) + count x ys

abbrev pub flag : Bool → ℕ
flag h = if h then 1 else 0

-- The footer of a piece at `a`. A hole that ends the heap, at `top`, may lack it: `create_heap` writes
-- none.
abbrev pub HasFoot : Memory → (top a : ℕ) → Piece → Type 0
HasFoot m top a p =
    ((p.is_hole ≡ true) × (a + p.size ≡ top))
    ⊎ ((get_magic m (a + p.size - 8) ≡ heap_magic) × (get_header m (a + p.size - 8) ≡ a))

-- The header and footer of a piece at `a`.
pub record PieceAt (m : Memory) (top a : ℕ) (p : Piece) : Type 0 where
  pub magic : get_magic m a ≡ heap_magic
  pub hole : get_is_hole m a ≡ flag p.is_hole
  pub sized : get_size m a ≡ p.size
  pub room : 20 ≤ p.size
  pub foot : HasFoot m top a p

-- The pieces tile the space from `a` to `e`.
abbrev pub Tiles : Memory → (top a : ℕ) → List Piece → (e : ℕ) → Type 0
Tiles m top a [] e = a ≡ e
Tiles m top a (p ∷ ps) e = PieceAt m top a p × Tiles m top (a + p.size) ps e

-- What the heap writes for a whole piece: its header and its footer.
unfoldable pub write_piece : Memory → ℕ → Piece → Memory
write_piece m a p =
    store32
      (store32 (store32 (store8 (store32 m a heap_magic) (a + 4) (flag p.is_hole)) (a + 8) p.size)
        (a + p.size - 8) heap_magic)
      (a + p.size - 8 + 4) a

-- It stays inside the piece.
pub write_piece_outside :
    (m : Memory) (a : ℕ) (p : Piece) (b : ℕ)
    → 20 ≤ p.size
    → (b < a) ⊎ (a + p.size ≤ b)
    → write_piece m a p b ≡ m b
unfolding write_piece
write_piece_outside m a p b room h =
    store32_outside _ (a + p.size - 8 + 4) a b (omega arith)
    ∙ store32_outside _ (a + p.size - 8) heap_magic b (omega arith)
    ∙ store32_outside _ (a + 8) p.size b (omega arith)
    ∙ store8_outside _ (a + 4) (flag p.is_hole) b (λ e. omega arith)
    ∙ store32_outside m a heap_magic b (omega arith)

flag-lt : (h : Bool) → flag h < 2 ^ 8
flag-lt true = omega arith
flag-lt false = omega arith

pub write_piece-PieceAt :
    (m : Memory) (top a : ℕ) (p : Piece)
    → 20 ≤ p.size
    → a + p.size < 2 ^ 32
    → PieceAt (write_piece m a p) top a p
unfolding write_piece
write_piece-PieceAt m top a p room word = record {
  magic =
      load32-store32_ne _ (a + p.size - 8 + 4) a a (omega arith)
      ∙ load32-store32_ne _ (a + p.size - 8) heap_magic a (omega arith)
      ∙ load32-store32_ne _ (a + 8) p.size a (omega arith)
      ∙ load32-store8_ne _ (a + 4) (flag p.is_hole) a (omega arith)
      ∙ load32-store32_self m a heap_magic (omega arith);
  hole =
      load8-store32_ne _ (a + p.size - 8 + 4) a (a + 4) (omega arith)
      ∙ load8-store32_ne _ (a + p.size - 8) heap_magic (a + 4) (omega arith)
      ∙ load8-store32_ne _ (a + 8) p.size (a + 4) (omega arith)
      ∙ load8-store8_self _ (a + 4) (flag p.is_hole) (flag-lt p.is_hole);
  sized =
      load32-store32_ne _ (a + p.size - 8 + 4) a (a + 8) (omega arith)
      ∙ load32-store32_ne _ (a + p.size - 8) heap_magic (a + 8) (omega arith)
      ∙ load32-store32_self _ (a + 8) p.size (omega arith);
  room = room;
  foot = inr (
    load32-store32_ne _ (a + p.size - 8 + 4) a (a + p.size - 8) (omega arith)
        ∙ load32-store32_self _ (a + p.size - 8) heap_magic (omega arith),
    load32-store32_self _ (a + p.size - 8 + 4) a (omega arith),
  );
}

agree-HasFoot :
    (m n : Memory) (top a : ℕ) (p : Piece)
    → ((b : ℕ) → a ≤ b → b < a + p.size → n b ≡ m b)
    → 20 ≤ p.size
    → HasFoot m top a p
    → HasFoot n top a p
agree-HasFoot m n top a p same room (inl end) = inl end
agree-HasFoot m n top a p same room (inr (magic, header)) = inr (
  load32_agree n m (a + p.size - 8) (λ b l h. same b (omega arith) (omega arith)) ∙ magic,
  load32_agree n m (a + p.size - 8 + 4) (λ b l h. same b (omega arith) (omega arith)) ∙ header,
)

-- A piece depends on the bytes of its own space alone.
pub agree-PieceAt :
    (m n : Memory) (top a : ℕ) (p : Piece)
    → ((b : ℕ) → a ≤ b → b < a + p.size → n b ≡ m b)
    → PieceAt m top a p
    → PieceAt n top a p
agree-PieceAt m n top a p same at = record {
  magic = load32_agree n m a (λ b l h. same b (omega arith) (omega (arith, at.room))) ∙ at.magic;
  hole = load8_agree n m (a + 4) (same (a + 4) (omega arith) (omega (arith, at.room))) ∙ at.hole;
  sized =
      load32_agree n m (a + 8) (λ b l h. same b (omega arith) (omega (arith, at.room))) ∙ at.sized;
  room = at.room;
  foot = agree-HasFoot m n top a p same at.room at.foot;
}

pub total-Tiles :
    (m : Memory) (top a : ℕ) (ps : List Piece) (e : ℕ) → Tiles m top a ps e → a + total ps ≡ e
total-Tiles m top a [] e t = omega arith
total-Tiles m top a (p ∷ ps) e (at, t) = omega (arith, total-Tiles m top (a + p.size) ps e t)

pub agree-Tiles :
    (m n : Memory) (top a : ℕ) (ps : List Piece) (e : ℕ)
    → ((b : ℕ) → a ≤ b → b < e → n b ≡ m b)
    → Tiles m top a ps e
    → Tiles n top a ps e
agree-Tiles m n top a [] e same t = t
agree-Tiles m n top a (p ∷ ps) e same (at, t) =
    let fits : a + p.size ≤ e = omega (arith, total-Tiles m top (a + p.size) ps e t) in
    (
      agree-PieceAt m n top a p (λ b l h. same b l (omega arith)) at,
      agree-Tiles m n top (a + p.size) ps e (λ b l h. same b (omega (arith, at.room)) h) t,
    )

pub Tiles-append :
    (m : Memory) (top a : ℕ) (ps qs : List Piece) (b e : ℕ)
    → Tiles m top a ps b
    → Tiles m top b qs e
    → Tiles m top a (ps ++ qs) e
Tiles-append m top a [] qs b e t u = subst (λ x. Tiles m top x qs e) (sym t) u
Tiles-append m top a (p ∷ ps) qs b e (at, t) u = (at, Tiles-append m top (a + p.size) ps qs b e t u)

-- Writing inside one piece: new pieces take its place, and the others stay.
pub Tiles-replace :
    (m n : Memory) (top a h : ℕ) (ps : List Piece) (p : Piece) (new qs : List Piece) (e : ℕ)
    → h ≡ a + total ps
    → ((b : ℕ) → (b < h) ⊎ (h + p.size ≤ b) → n b ≡ m b)
    → Tiles n top h new (h + p.size)
    → Tiles m top a (ps ++ p ∷ qs) e
    → Tiles n top a (ps ++ (new ++ qs)) e
Tiles-replace m n top a h [] p new qs e place same t (at, u) =
    let here : h ≡ a = omega arith in
    Tiles-append n top a new qs (a + p.size) e (subst (λ x. Tiles n top x new (x + p.size)) here t)
      (agree-Tiles m n top (a + p.size) qs e (λ b l k. same b (omega arith)) u)
Tiles-replace m n top a h (q ∷ ps) p new qs e place same t (at, u) = (
  agree-PieceAt m n top a q (λ b l k. same b (omega arith)) at,
  Tiles-replace m n top (a + q.size) h ps p new qs e (omega arith) same t u,
)

module _ (x : ℕ) where
  pub count-append : (xs ys : List ℕ) → count x (xs ++ ys) ≡ count x xs + count x ys
  count-append [] ys = omega arith
  count-append (y ∷ xs) ys = omega (arith, count-append xs ys)

pub total-append : (ps qs : List Piece) → total (ps ++ qs) ≡ total ps + total qs
total-append [] qs = omega arith
total-append (p ∷ ps) qs = omega (arith, total-append ps qs)

pub holes-append :
    (a b : ℕ) (ps qs : List Piece)
    → b ≡ a + total ps
    → holes a (ps ++ qs) ≡ holes a ps ++ holes b qs
holes-append a b [] qs e = ap (λ c. holes c qs) (omega arith)
holes-append a b (p ∷ ps) qs e = ground (arith, holes-append (a + p.size) b ps qs (omega arith))

-- A hole that is counted is a piece of the sequence.
pub record HoleIn (a h : ℕ) (ps : List Piece) : Type 0 where
  pub before : List Piece
  pub size : ℕ
  pub after : List Piece
  pub parts : ps ≡ before ++ piece size true ∷ after
  pub place : h ≡ a + total before

HoleIn-cons :
    (a h : ℕ) (p : Piece) (ps : List Piece) → HoleIn (a + p.size) h ps → HoleIn a h (p ∷ ps)
HoleIn-cons a h p ps i = record {
  before = p ∷ i.before;
  size = i.size;
  after = i.after;
  parts = ap (λ t. p ∷ t) i.parts;
  place = omega (arith, i.place);
}

pub count-HoleIn : (a h : ℕ) (ps : List Piece) → 0 < count h (holes a ps) → HoleIn a h ps
count-HoleIn a h [] c = absurd (omega arith)
count-HoleIn a h (p ∷ ps) c = elim (Bool-cases (p.is_hole && (a == h))) [
  | inl here ↦ record {
    before = [];
    size = p.size;
    after = ps;
    parts = ap (λ (b : Bool). piece p.size b ∷ ps) (ground arith);
    place = ground arith;
  }
  | inr later ↦ HoleIn-cons a h p ps (count-HoleIn (a + p.size) h ps (ground arith))
]

-- What stands at a piece's place.
pub Tiles-piece :
    (m : Memory) (top a h : ℕ) (ps : List Piece) (p : Piece) (qs : List Piece) (e : ℕ)
    → h ≡ a + total ps
    → Tiles m top a (ps ++ p ∷ qs) e
    → PieceAt m top h p × (h + p.size ≤ e)
Tiles-piece m top a h [] p qs e place (at, t) =
    let here : a ≡ h = omega arith in
    (subst (λ x. PieceAt m top x p) here at, omega (arith, total-Tiles m top (a + p.size) qs e t))
Tiles-piece m top a h (q ∷ ps) p qs e place (at, t) =
    Tiles-piece m top (a + q.size) h ps p qs e (omega arith) t
