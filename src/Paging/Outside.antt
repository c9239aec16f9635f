-- ===== src/Paging/Outside.antt =====
-- What `alloc_frame` of IcarusOS/paging.c leaves alone, whatever the page and the bitset hold.
use cmsi.Base.{ℕ, ◌+◌, ◌*◌, ◌/◌, ◌^◌, ◌≤◌, ◌<◌, ◌≡◌, ◌⊎◌, inl, inr, refl, arith, ◌∙◌}
use cmsi.Base.{◌==◌, if◌then◌else◌, Bool-cases}
use cmsi.Base.Outcome.{ok}
use cmsi.Memory.{Memory, load32}
use cmsi.Memory.Access.{store32_outside}
use cmsi.Kernel.{Kernel}
use cmsi.Paging.{alloc_frame}
use cmsi.Paging.Entry.{frame}
use cmsi.Paging.Frames.{set_frame_memory}
use cmsi.Paging.FirstFrame.{Found, first_frame-Found}
use cmsi.Paging.FrameAlloc.{
  frame_count, mapped_memory, mapped_memory_outside, alloc_frame-mapped, alloc_frame-run,
}

Found-below :
    (k : Kernel) (r : ℕ)
    → 0 < frame_count k
    → Found k.memory k.frames 0 (k.nframes / 32) r
    → r < frame_count k
Found-below k r some_frames (inl first) = first.below
Found-below k r some_frames (inr (e, _)) = omega arith

set_frame_memory_outside :
    (m : Memory) (frames r n b : ℕ)
    → r < 32 * n
    → (b < frames) ⊎ (frames + 4 * n ≤ b)
    → set_frame_memory m frames r b ≡ m b
unfolding set_frame_memory
set_frame_memory_outside m frames r n b low o =
    store32_outside m (frames + 4 * (r / 32)) _ b (omega arith)

-- With at least 32 and at most 2^20 frames, `alloc_frame` returns, and writes to the page and to the
-- bitset alone.
pub alloc_frame_outside :
    (k : Kernel) (page is_kernel is_writeable : ℕ)
    → 32 ≤ k.nframes
    → k.nframes ≤ 2 ^ 20
    → (m' : Memory) × (alloc_frame page is_kernel is_writeable k
        ≡ ok (tt, record k { memory = m' }))
      × ((b : ℕ)
          → (b < page) ⊎ (page + 4 ≤ b)
          → (b < k.frames) ⊎ (k.frames + 4 * (k.nframes / 32) ≤ b)
          → m' b ≡ k.memory b)
alloc_frame_outside k page is_kernel is_writeable some_frames small =
    elim (Bool-cases (frame (load32 k.memory page) == 0)) [
      | inl unmapped ↦
          let (r, run, found) = first_frame-Found k in
          let low = Found-below k r (omega arith) found in
          let m = set_frame_memory k.memory k.frames r in
          (
            mapped_memory page (if is_writeable == 1 then 1 else 0)
                (if is_kernel == 1 then 0 else 1) r m,
            alloc_frame-run k page is_kernel is_writeable r (ground arith) run (omega arith),
            λ b o p.
                mapped_memory_outside page _ _ r m b o
                ∙ set_frame_memory_outside k.memory k.frames r (k.nframes / 32) b low p,
          )
      | inr mapped ↦
          (k.memory, alloc_frame-mapped k page is_kernel is_writeable (ground arith), λ b o p. refl)
    ]
