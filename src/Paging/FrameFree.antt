-- ===== src/Paging/FrameFree.antt =====
-- `free_frame`: what it does to the page and to the bitset.
use cmsi.Base.{ℕ, ◌/◌, ◌<◌, ◌≡◌, ◌≢◌}
use cmsi.Base.{true, false, arith, ◌∙◌, ◌==◌, if◌then◌else◌}
use cmsi.Base.Outcome.{ok}
use cmsi.Memory.{load32}
use cmsi.Memory.Access.{load32-store32_ne}
use cmsi.Kernel.{Kernel}
use cmsi.Paging.{clear_frame, free_frame}
use cmsi.Paging.Entry.{frame}
use cmsi.Paging.Entry.{set_frame_field-lt}
use cmsi.Paging.Entry.{set_frame_field}
use cmsi.Paging.Frames.{frame_bit}
use cmsi.Paging.Frames.{clear_frame_memory}
use cmsi.Paging.Frames.{frame_bit-clear_frame_memory}
use cmsi.Paging.FrameAlloc.{Apart, frame_count, assigned, load32-assigned, frame_bit-assigned}

load32-clear_frame_memory :
    (k : Kernel) (page r : ℕ)
    → Apart k page
    → r < frame_count k
    → load32 (clear_frame_memory k.memory k.frames r) page ≡ load32 k.memory page
unfolding clear_frame_memory
load32-clear_frame_memory k page r apart low = load32-store32_ne k.memory _ _ page (omega arith)

set_frame_field-zero : (w : ℕ) → frame (set_frame_field w 0) ≡ 0
unfolding set_frame_field
set_frame_field-zero w = omega arith

module _ (k : Kernel) (page : ℕ) where
  free_frame-run :
      frame (load32 k.memory page) ≢ 0
      → frame (load32 k.memory page) < 0x1000
      → free_frame page k
        ≡ ok (
          tt,
          record k {
            memory =
                assigned page (λ w. set_frame_field w 0) (clear_frame_memory k.memory k.frames 0);
          },
        )
  unfolding free_frame clear_frame clear_frame_memory assigned
  free_frame-run has small =
      let test : (frame (load32 k.memory page) == 0) ≡ false = ground arith in
      let first : frame (load32 k.memory page) / 0x1000 ≡ 0 = omega arith in rw (test, first)

  -- On a page without a frame `free_frame` changes nothing.
  pub free_frame-unmapped : frame (load32 k.memory page) ≡ 0 → free_frame page k ≡ ok (tt, k)
  unfolding free_frame
  free_frame-unmapped e =
      let test : (frame (load32 k.memory page) == 0) ≡ true = ground arith in rw test

  -- On a page with a frame below 0x1000, apart from the bitset, `free_frame` takes the frame from
  -- the page, but marks frame 0 as free and leaves the mark of every other frame, the page's own
  -- included.
  pub free_frame_lem :
      frame (load32 k.memory page) ≢ 0
      → frame (load32 k.memory page) < 0x1000
      → Apart k page
      → 0 < frame_count k
      → (k' : Kernel) × (free_frame page k ≡ ok (tt, k'))
        × (frame (load32 k'.memory page) ≡ 0)
        × ((g : ℕ)
            → g < frame_count k
            → frame_bit k'.memory k.frames g
              ≡ (if g == 0 then 0 else frame_bit k.memory k.frames g))
  free_frame_lem has small apart some_frames = (
    _,
    free_frame-run has small,
    rw (load32-assigned page (λ w. set_frame_field w 0) _ (λ w. set_frame_field-lt w 0))
        (set_frame_field-zero _),
    λ g h.
        frame_bit-assigned page (λ w. set_frame_field w 0) _ k.frames g (k.nframes / 32) apart h
        ∙ frame_bit-clear_frame_memory k.memory k.frames 0 g,
  )
