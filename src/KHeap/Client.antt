-- ===== src/KHeap/Client.antt =====
-- Sequences of calls of `alloc` and `free` of IcarusOS/kheap.c, and a block that a caller holds.
use cmsi.Base.{
  ℕ, suc, ◌+◌, ◌<◌, ◌≤◌, ◌≡◌, ◌≢◌, ◌⊎◌, inl, inr, refl, ap, sym, ◌∙◌, arith, Bool-cases,
}
use cmsi.Base.{true, false, List, [], ◌∷◌, ◌++◌, if◌then◌else◌}
use mathlib.Core.Path.{subst}
use mathlib.Core.List.{append_assoc}
use cmsi.Base.Outcome.{Outcome, ok, ok-injective}
use cmsi.Kernel.{Kernel, Heap}
use cmsi.KHeap.{alloc}
use cmsi.KHeap.Release.{free}
use cmsi.KHeap.Pieces.{Piece, piece, total, total-append}
use cmsi.KHeap.WellFormed.{WellFormed, carve}
use cmsi.KHeap.Alloc.{alloc_lem}
use cmsi.KHeap.Freed.{free_lem, released}
use cmsi.KHeap.Held.{Held, Held-replace, hole-Held, other-Held, pair-Held, total-carve}

-- There is a hole with as many bytes.
pub record HasHole (ps : List Piece) (n : ℕ) : Type 0 where
  pub before : List Piece
  pub size : ℕ
  pub after : List Piece
  pub parts : ps ≡ before ++ piece size true ∷ after
  pub fits : n ≤ size

-- `p` is the address of a block that is not the one at `x`, with a piece in front of it and a block
-- behind it, and the index has room for two more holes.
pub record IsFreeable (heap : Heap) (ps : List Piece) (x p : ℕ) : Type 0 where
  pub before : List Piece
  pub front : Piece
  pub size : ℕ
  pub behind : Piece
  pub after : List Piece
  pub parts : ps ≡ before ++ front ∷ piece size false ∷ behind ∷ after
  pub place : p ≡ heap.start_address + total before + front.size + 12
  pub other : x ≢ heap.start_address + total before + front.size
  pub room : heap.index.size + 1 < heap.index.max_size
  pub is_block : behind.is_hole ≡ false

-- A run of requests that never frees the block at `x`.
pub data Requests (x : ℕ) (k : Kernel) : Kernel → Type 0 where
  start : Requests x k k
  allocates :
      {k₁ k₂ : Kernel} (size fuel addr : ℕ)
      → Requests x k k₁
      → ((heap : Heap) (ps : List Piece) → WellFormed k₁ heap ps → HasHole ps (size + 20))
      → alloc (suc fuel) size 0 k₁ ≡ ok (addr, k₂)
      → Requests x k k₂
  frees :
      {k₁ k₂ : Kernel} (p : ℕ)
      → Requests x k k₁
      → ((heap : Heap) (ps : List Piece) → WellFormed k₁ heap ps → IsFreeable heap ps x p)
      → free p k₁ ≡ ok (tt, k₂)
      → Requests x k k₂

-- What becomes of the heap and of the block of size `s` at `x`.
pub record Keeps (k k' : Kernel) (heap : Heap) (x s : ℕ) : Type 0 where
  pub heap_after : Heap
  pub pieces : List Piece
  pub well_formed : WellFormed k' heap_after pieces
  pub held : Held heap_after.start_address pieces x s
  pub same : (b : ℕ) → x ≤ b → b < x + s → k'.memory b ≡ k.memory b
  pub same_start : heap_after.start_address ≡ heap.start_address
  pub same_end : heap_after.end_address ≡ heap.end_address

same_state :
    {A : Type 0} (a b : A) (k l : Kernel)
    → ◌≡◌ {A = Outcome (A × Kernel)} (ok (a, k)) (ok (b, l))
    → k ≡ l
same_state {A} a b k l h = ap (λ (p : A × Kernel). p.1) (ok-injective h)

alloc-Keeps :
    (k k' : Kernel) (heap : Heap) (ps : List Piece) (x s size fuel addr : ℕ)
    → WellFormed k heap ps
    → Held heap.start_address ps x s
    → HasHole ps (size + 20)
    → alloc (suc fuel) size 0 k ≡ ok (addr, k')
    → Keeps k k' heap x s
alloc-Keeps k k' heap ps x s size fuel addr wf held hole ran =
    let (addr', k₂, ran', t) =
      alloc_lem k heap hole.before hole.size hole.after size fuel
        (subst (λ l. WellFormed k heap l) hole.parts wf) hole.fits in
    let same_parts = hole.parts ∙ t.parts in
    let (kept, apart) =
      Held-replace heap.start_address t.before (piece t.hole_size true ∷ [])
        (carve t.hole_size (size + 20)) t.after x s
        (total-carve t.hole_size (size + 20) t.enough ∙ omega arith)
        (hole-Held (heap.start_address + total t.before) t.hole_size x s)
        (subst (λ l. Held heap.start_address l x s) same_parts held) in
    subst (λ l. Keeps k l heap x s) (same_state addr' addr k₂ k' (sym ran' ∙ ran))
      (record {
        heap_after = t.heap_after;
        pieces = t.before ++ (carve t.hole_size (size + 20) ++ t.after);
        well_formed = t.well_formed;
        held =
            subst (λ a. Held a (t.before ++ (carve t.hole_size (size + 20) ++ t.after)) x s)
              (sym t.same_start) kept;
        same = λ b l u. t.outside b (omega (arith, apart, t.place));
        same_start = t.same_start;
        same_end = t.same_end;
      })

released-Held :
    (a : ℕ) (before : List Piece) (q : Piece) (s₁ : ℕ) (r : Piece) (after : List Piece) (x s : ℕ)
    → x ≢ a + total before + q.size
    → Held a (before ++ q ∷ piece s₁ false ∷ r ∷ after) x s
    → Held a (before ++ (released q s₁ ++ r ∷ after)) x s
      × ((x + s ≤ a + total before + (if q.is_hole then 0 else q.size))
          ⊎ (a + total before + q.size + s₁ ≤ x))
unfolding released
released-Held a before q s₁ r after x s other h = elim (Bool-cases (q.is_hole)) [
  | inl hole ↦
      let same : piece (q.size + s₁) true ∷ [] ≡ released q s₁ = ground arith in
      let (kept, apart) =
        Held-replace a before (q ∷ piece s₁ false ∷ []) (piece (q.size + s₁) true ∷ []) (r ∷ after)
          x s (omega arith) (pair-Held (a + total before) q s₁ x s hole other) h in
      (subst (λ l. Held a (before ++ (l ++ r ∷ after)) x s) same kept, ground (arith, apart, hole))
  | inr block ↦
      let same : q ∷ piece s₁ true ∷ [] ≡ released q s₁ = ground arith in
      let front : total (before ++ q ∷ []) ≡ total before + q.size =
        omega (arith, total-append before (q ∷ [])) in
      let (kept, apart) =
        Held-replace a (before ++ q ∷ []) (piece s₁ false ∷ []) (piece s₁ true ∷ []) (r ∷ after) x s
          refl
          (other-Held (a + total (before ++ q ∷ [])) s₁ x s (λ e. other (omega (arith, e, front))))
          (subst (λ l. Held a l x s)
            (sym (append_assoc before (q ∷ []) (piece s₁ false ∷ r ∷ after))) h) in
      (
        subst (λ l. Held a (before ++ (l ++ r ∷ after)) x s) same
            (subst (λ l. Held a l x s) (append_assoc before (q ∷ []) (piece s₁ true ∷ r ∷ after))
              kept),
        ground (arith, apart, block, front),
      )
]

free-Keeps :
    (k k' : Kernel) (heap : Heap) (ps : List Piece) (x s p : ℕ)
    → WellFormed k heap ps
    → Held heap.start_address ps x s
    → IsFreeable heap ps x p
    → free p k ≡ ok (tt, k')
    → Keeps k k' heap x s
free-Keeps k k' heap ps x s p wf held f ran =
    let new = f.before ++ (released f.front f.size ++ f.behind ∷ f.after) in
    let (k₂, heap₂, ran', wf₂, outside, first, last) =
      free_lem k heap f.before f.front f.size f.behind f.after
        (subst (λ l. WellFormed k heap l) f.parts wf) f.room f.is_block in
    let (kept, apart) =
      released-Held heap.start_address f.before f.front f.size f.behind f.after x s f.other
        (subst (λ l. Held heap.start_address l x s) f.parts held) in
    subst (λ l. Keeps k l heap x s)
      (same_state tt tt k₂ k' (sym (subst (λ a. free a k ≡ ok (tt, k₂)) (sym f.place) ran') ∙ ran))
      (record {
        heap_after = heap₂;
        pieces = new;
        well_formed = wf₂;
        held = subst (λ a. Held a new x s) (sym first) kept;
        same = λ b l u. outside b (omega (arith, apart));
        same_start = first;
        same_end = last;
      })

Keeps-trans :
    (k k₁ k₂ : Kernel) (heap : Heap) (x s : ℕ) (first : Keeps k k₁ heap x s)
    → Keeps k₁ k₂ first.heap_after x s
    → Keeps k k₂ heap x s
Keeps-trans k k₁ k₂ heap x s first next = record {
  heap_after = next.heap_after;
  pieces = next.pieces;
  well_formed = next.well_formed;
  held = next.held;
  same = λ b l u. next.same b l u ∙ first.same b l u;
  same_start = next.same_start ∙ first.same_start;
  same_end = next.same_end ∙ first.same_end;
}

-- From a well-formed heap with a block of size `s` at `x`, after any run of alloc without alignment,
-- each where some hole has the bytes it needs, and of free of other blocks, each with a piece in
-- front, a block behind, and room for two more holes in the index, the heap is well-formed between
-- the same bounds, the block is still there, and none of its bytes has changed.
pub Requests-Keeps :
    (heap : Heap) (ps : List Piece) (x s : ℕ) (k k' : Kernel)
    → WellFormed k heap ps
    → Held heap.start_address ps x s
    → Requests x k k'
    → Keeps k k' heap x s
Requests-Keeps heap ps x s k k' wf held start = record {
  heap_after = heap;
  pieces = ps;
  well_formed = wf;
  held = held;
  same = λ b l u. refl;
  same_start = refl;
  same_end = refl;
}
Requests-Keeps heap ps x s k k' wf held (allocates {k₁} {k₂} size fuel addr r fits ran) =
    let first = Requests-Keeps heap ps x s k k₁ wf held r in
    Keeps-trans k k₁ k₂ heap x s first (
      alloc-Keeps k₁ k₂ first.heap_after first.pieces x s size fuel addr first.well_formed
        first.held (fits first.heap_after first.pieces first.well_formed) ran)
Requests-Keeps heap ps x s k k' wf held (frees {k₁} {k₂} p r freeable ran) =
    let first = Requests-Keeps heap ps x s k k₁ wf held r in
    Keeps-trans k k₁ k₂ heap x s first (
      free-Keeps k₁ k₂ first.heap_after first.pieces x s p first.well_formed first.held
        (freeable first.heap_after first.pieces first.well_formed) ran)
