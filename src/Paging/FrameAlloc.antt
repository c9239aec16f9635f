-- ===== src/Paging/FrameAlloc.antt =====
-- `alloc_frame`: what it does to the page and to the bitset.
use cmsi.Base.{ℕ, ◌+◌, ◌*◌, ◌/◌, ◌^◌, ◌≤◌, ◌<◌, ◌≡◌, ◌≢◌, ◌⊎◌, inl, inr}
use cmsi.Base.{true, false, arith, ◌∙◌, ◌==◌, if◌then◌else◌}
use mathlib.Core.Path.{subst}
use cmsi.Base.Words.{mul32}
use cmsi.Base.Outcome.{ok}
use cmsi.Memory.{Memory, load32, store32}
use cmsi.Memory.Access.{load32-lt, load32-store32_self, load32-store32_ne, store32_outside}
use cmsi.Kernel.{Kernel}
use cmsi.Paging.{set_frame, first_frame, alloc_frame}
use cmsi.Paging.Entry.{accessed, dirty, reserved}
use cmsi.Paging.Entry.{frame, present, rw_bit, user, mapped, mapped_fields}
use cmsi.Paging.Entry.{set_present-lt, set_rw-lt, set_user-lt, set_frame_field-lt}
use cmsi.Paging.Entry.{set_present, set_rw, set_user, set_frame_field}
use cmsi.Paging.Frames.{frame_bit}
use cmsi.Paging.FirstFrame.{IsFirstFree, AllUsed, Found, first_frame-Found}
use cmsi.Paging.Frames.{set_frame_memory}
use cmsi.Paging.Frames.{frame_bit-set_frame_memory}

-- How many frames the whole words of the bitset cover.
abbrev pub frame_count : Kernel → ℕ
frame_count k = 32 * (k.nframes / 32)

-- The page's word lies apart from the bitset.
abbrev pub Apart : Kernel → (page : ℕ) → Type 0
Apart k page = (page + 4 ≤ k.frames) ⊎ (k.frames + 4 * (k.nframes / 32) ≤ page)

-- An assignment to a field of the page.
unfoldable pub assigned : (page : ℕ) → (ℕ → ℕ) → Memory → Memory
assigned page f m = store32 m page (f (load32 m page))

pub load32-assigned :
    (page : ℕ) (f : ℕ → ℕ) (m : Memory)
    → ((w : ℕ) → w < 2 ^ 32 → f w < 2 ^ 32)
    → load32 (assigned page f m) page ≡ f (load32 m page)
unfolding assigned
load32-assigned page f m h = load32-store32_self m page _ (h _ (load32-lt m page))

assigned_outside :
    (page : ℕ) (f : ℕ → ℕ) (m : Memory) (b : ℕ)
    → (b < page) ⊎ (page + 4 ≤ b)
    → assigned page f m b ≡ m b
unfolding assigned
assigned_outside page f m b h = store32_outside m page _ b h

pub frame_bit-assigned :
    (page : ℕ) (f : ℕ → ℕ) (m : Memory) (frames g n : ℕ)
    → (page + 4 ≤ frames) ⊎ (frames + 4 * n ≤ page)
    → g < 32 * n
    → frame_bit (assigned page f m) frames g ≡ frame_bit m frames g
unfolding assigned frame_bit
frame_bit-assigned page f m frames g n h k =
    ground (arith, load32-store32_ne m page (f (load32 m page)) (frames + 4 * (g / 32)))

-- The memory after the four assignments of `alloc_frame`.
pub mapped_memory : (page writeable usermode idx : ℕ) → Memory → Memory
mapped_memory page writeable usermode idx m =
    assigned page (λ w. set_frame_field w idx)
      (assigned page (λ w. set_user w usermode)
        (assigned page (λ w. set_rw w writeable) (assigned page (λ w. set_present w 1) m)))

pub mapped_memory_outside :
    (page writeable usermode idx : ℕ) (m : Memory) (b : ℕ)
    → (b < page) ⊎ (page + 4 ≤ b)
    → mapped_memory page writeable usermode idx m b ≡ m b
unfolding mapped_memory
mapped_memory_outside page writeable usermode idx m b o =
    assigned_outside page (λ w. set_frame_field w idx) _ b o
    ∙ assigned_outside page (λ w. set_user w usermode) _ b o
    ∙ assigned_outside page (λ w. set_rw w writeable) _ b o
    ∙ assigned_outside page (λ w. set_present w 1) m b o

load32-mapped_memory :
    (page writeable usermode idx : ℕ) (m : Memory)
    → load32 (mapped_memory page writeable usermode idx m) page
      ≡ mapped (load32 m page) writeable usermode idx
unfolding mapped_memory mapped
load32-mapped_memory page writeable usermode idx m = rw (
  load32-assigned page (λ w. set_frame_field w idx) _ (λ w. set_frame_field-lt w idx),
  load32-assigned page (λ w. set_user w usermode) _ (λ w. set_user-lt w usermode),
  load32-assigned page (λ w. set_rw w writeable) _ (λ w. set_rw-lt w writeable),
  load32-assigned page (λ w. set_present w 1) m (λ w. set_present-lt w 1),
)

frame_bit-mapped_memory :
    (page writeable usermode idx : ℕ) (m : Memory) (frames g n : ℕ)
    → (page + 4 ≤ frames) ⊎ (frames + 4 * n ≤ page)
    → g < 32 * n
    → frame_bit (mapped_memory page writeable usermode idx m) frames g ≡ frame_bit m frames g
unfolding mapped_memory
frame_bit-mapped_memory page writeable usermode idx m frames g n h k = rw (
  frame_bit-assigned page (λ w. set_frame_field w idx) _ frames g n h k,
  frame_bit-assigned page (λ w. set_user w usermode) _ frames g n h k,
  frame_bit-assigned page (λ w. set_rw w writeable) _ frames g n h k,
  frame_bit-assigned page (λ w. set_present w 1) m frames g n h k,
)

-- The whole run of `alloc_frame` on a page without a frame, once `first_frame` has answered.
pub alloc_frame-run :
    (k : Kernel) (page is_kernel is_writeable idx : ℕ)
    → frame (load32 k.memory page) ≡ 0
    → first_frame k ≡ ok (idx, k)
    → idx < 2 ^ 20
    → alloc_frame page is_kernel is_writeable k
      ≡ ok (
        tt,
        record k {
          memory =
              mapped_memory page
                (if is_writeable == 1 then 1 else 0)
                (if is_kernel == 1 then 0 else 1)
                idx
                (set_frame_memory k.memory k.frames idx);
        },
      )
unfolding alloc_frame mapped_memory assigned set_frame set_frame_memory
alloc_frame-run k page is_kernel is_writeable idx unmapped found small =
    let addr : mul32 idx 0x1000 / 0x1000 ≡ idx = omega arith in
    let unmapped_test : (frame (load32 k.memory page) == 0) ≡ true = ground arith in
    let no_panic : (idx == 0xffff_ffff) ≡ false = ground arith in
    rw (unmapped_test, found, no_panic, addr)

-- Running `alloc_frame` again, or on a page that has a frame, changes nothing.
pub alloc_frame-mapped :
    (k : Kernel) (page is_kernel is_writeable : ℕ)
    → frame (load32 k.memory page) ≢ 0
    → alloc_frame page is_kernel is_writeable k ≡ ok (tt, k)
unfolding alloc_frame
alloc_frame-mapped k page is_kernel is_writeable has =
    let test : (frame (load32 k.memory page) == 0) ≡ false = ground arith in rw test

-- A page's word after `alloc_frame` gave it the frame `idx`, from what it was before.
pub record IsMapped (old w idx is_kernel is_writeable : ℕ) : Type 0 where
  pub is_present : present w ≡ 1
  pub is_rw : rw_bit w ≡ (if is_writeable == 1 then 1 else 0)
  pub is_user : user w ≡ (if is_kernel == 1 then 0 else 1)
  pub has_frame : frame w ≡ idx
  pub same_accessed : accessed w ≡ accessed old
  pub same_dirty : dirty w ≡ dirty old
  pub same_reserved : reserved w ≡ reserved old

mapped-IsMapped :
    (old idx is_kernel is_writeable : ℕ)
    → old < 2 ^ 32
    → idx < 2 ^ 20
    → IsMapped old
        (mapped old (if is_writeable == 1 then 1 else 0) (if is_kernel == 1 then 0 else 1) idx)
        idx
        is_kernel
        is_writeable
mapped-IsMapped old idx is_kernel is_writeable h k = ground (
  arith,
  mapped_fields old (if is_writeable == 1 then 1 else 0) (if is_kernel == 1 then 0 else 1) idx h k,
)

-- The page has frame `r`, which is now in use, and the other frames are as they were.
pub record Allocated (k k' : Kernel) (page is_kernel is_writeable r : ℕ) : Type 0 where
  pub page_word : IsMapped (load32 k.memory page) (load32 k'.memory page) r is_kernel is_writeable
  pub bits :
      (g : ℕ)
      → g < frame_count k
      → frame_bit k'.memory k.frames g ≡ (if g == r then 1 else frame_bit k.memory k.frames g)

load32-set_frame_memory :
    (k : Kernel) (page r : ℕ)
    → Apart k page
    → r < frame_count k
    → load32 (set_frame_memory k.memory k.frames r) page ≡ load32 k.memory page
unfolding set_frame_memory
load32-set_frame_memory k page r apart low = load32-store32_ne k.memory _ _ page (omega arith)

module _ (k : Kernel) (page is_kernel is_writeable : ℕ)
    (unmapped : frame (load32 k.memory page) ≡ 0) (apart : Apart k page)
    (small : k.nframes ≤ 2 ^ 20) where
  alloc_frame-Allocated :
      (r : ℕ)
      → first_frame k ≡ ok (r, k)
      → r < frame_count k
      → (k' : Kernel) × (alloc_frame page is_kernel is_writeable k ≡ ok (tt, k'))
        × Allocated k k' page is_kernel is_writeable r
  alloc_frame-Allocated r found low = (
    _,
    alloc_frame-run k page is_kernel is_writeable r unmapped found (omega arith),
    record {
      page_word =
          rw (load32-mapped_memory page _ _ r _, load32-set_frame_memory k page r apart low)
            (mapped-IsMapped (load32 k.memory page) r is_kernel is_writeable (load32-lt _ _)
              (omega arith));
      bits = λ g h.
          frame_bit-mapped_memory page _ _ r _ k.frames g (k.nframes / 32) apart h
          ∙ frame_bit-set_frame_memory k.memory k.frames r g;
    },
  )

  alloc_frame-inl :
      (r f : ℕ)
      → first_frame k ≡ ok (r, k)
      → Found k.memory k.frames 0 (k.nframes / 32) r
      → f < frame_count k
      → frame_bit k.memory k.frames f ≡ 0
      → (k' : Kernel) × (alloc_frame page is_kernel is_writeable k ≡ ok (tt, k'))
        × IsFirstFree k.memory k.frames 0 (k.nframes / 32) r
        × Allocated k k' page is_kernel is_writeable r
  alloc_frame-inl r f run (inl first) low free =
      let (k', go, a) = alloc_frame-Allocated r run first.below in (k', go, first, a)
  alloc_frame-inl r f run (inr (e, all)) low free = absurd (omega (arith, all f (omega arith) low))

  alloc_frame-inr :
      (r : ℕ)
      → first_frame k ≡ ok (r, k)
      → Found k.memory k.frames 0 (k.nframes / 32) r
      → 0 < frame_count k
      → AllUsed k.memory k.frames 0 (k.nframes / 32)
      → (k' : Kernel) × (alloc_frame page is_kernel is_writeable k ≡ ok (tt, k'))
        × Allocated k k' page is_kernel is_writeable 0
  alloc_frame-inr r run (inl first) some_frames all =
      absurd (omega (arith, first.free, all r (omega arith) first.below))
  alloc_frame-inr r run (inr (e, _)) some_frames all =
      alloc_frame-Allocated 0 (subst (λ t. first_frame k ≡ ok (t, k)) e run) some_frames

  -- On a page without a frame, apart from the bitset, with at most 2^20 frames of which one that
  -- lies in a whole word of the bitset is free, `alloc_frame` returns, and the page has the least
  -- free frame of these words with the flags asked for and the other fields as they were; of their
  -- frames that one alone is newly in use.
  pub alloc_frame_lem :
      (f : ℕ)
      → f < frame_count k
      → frame_bit k.memory k.frames f ≡ 0
      → (r : ℕ) × ((k' : Kernel) × (alloc_frame page is_kernel is_writeable k ≡ ok (tt, k'))
          × IsFirstFree k.memory k.frames 0 (k.nframes / 32) r
          × Allocated k k' page is_kernel is_writeable r)
  alloc_frame_lem f low free =
      let (r, run, found) = first_frame-Found k in (r, alloc_frame-inl r f run found low free)

  -- With every frame of the whole words of the bitset in use, on a page apart from it and with at
  -- most 2^20 frames, `alloc_frame` does not panic: it gives a page without a frame the frame 0,
  -- which is in use already.
  pub alloc_frame_exhausted :
      0 < frame_count k
      → AllUsed k.memory k.frames 0 (k.nframes / 32)
      → (k' : Kernel) × (alloc_frame page is_kernel is_writeable k ≡ ok (tt, k'))
        × Allocated k k' page is_kernel is_writeable 0
  alloc_frame_exhausted some_frames all =
      let (r, run, found) = first_frame-Found k in alloc_frame-inr r run found some_frames all
