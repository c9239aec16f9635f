-- ===== src/Paging/Frames.antt =====
-- The bitset of frames: which bit `set_frame` and `clear_frame` change.
use cmsi.Base.{ℕ, ◌+◌, ◌*◌, ◌/◌, ◌%◌, ◌^◌, ◌<◌, ◌≡◌, refl, inl, inr}
use cmsi.Base.{bit_and, bit_or, arith}
use cmsi.Base.{◌==◌, if◌then◌else◌, Bool-cases}
use cmsi.Base.Bits.{
  bit, bit-le, bit-pow, bit-bit_or, bit-bit_and, bit_complement, bit_or-lt, bit_and-lt,
}
use cmsi.Base.Outcome.{ok}
use cmsi.Memory.{Memory, load32, store32}
use cmsi.Memory.Access.{load32-lt, load32-store32_self, load32-store32_ne}
use cmsi.Kernel.{Kernel}
use cmsi.Paging.{complement32, set_frame, clear_frame}
use native.Mathlib.Nat.{pow-le-pow_right}

-- Bit `f` of the bitset at `frames`: 1 if frame `f` is in use.
unfoldable pub frame_bit : Memory → (frames f : ℕ) → ℕ
frame_bit m frames f = bit (load32 m (frames + 4 * (f / 32))) (f % 32)

-- Storing a word whose bits are those of before, but for one.
bit-store :
    (m : Memory) (frames f g w v : ℕ)
    → w < 2 ^ 32
    → ((j : ℕ)
        → j < 32
        → bit w j ≡ (if j == f % 32 then v else bit (load32 m (frames + 4 * (f / 32))) j))
    → frame_bit (store32 m (frames + 4 * (f / 32)) w) frames g
      ≡ (if g == f then v else frame_bit m frames g)
unfolding frame_bit
bit-store m frames f g w v hw h = elim (Bool-cases (g / 32 == f / 32)) [
  | inl same ↦
      ground (arith, load32-store32_self m (frames + 4 * (f / 32)) w hw, h (g % 32) (omega arith))
  | inr other ↦
      ground (arith, load32-store32_ne m (frames + 4 * (f / 32)) w (frames + 4 * (g / 32)))
]

bit-bit_or_pow : (w k j : ℕ) → bit (bit_or w (2 ^ k)) j ≡ (if j == k then 1 else bit w j)
bit-bit_or_pow w k j = ground (arith, bit-bit_or w (2 ^ k) j, bit-pow k j, bit-le w j)

pow-lt_32 : (k : ℕ) → k < 32 → 2 ^ k < 2 ^ 32
pow-lt_32 k h = omega (arith, pow-le-pow_right {n = 2} (omega arith) {i = k} {j = 31} (omega arith))

bit-bit_and_pow :
    (w k j : ℕ)
    → k < 32
    → j < 32
    → bit (bit_and w (complement32 (2 ^ k))) j ≡ (if j == k then 0 else bit w j)
bit-bit_and_pow w k j hk hj = ground (
  arith,
  bit-bit_and w (complement32 (2 ^ k)) j,
  bit_complement 32 (2 ^ k) j (pow-lt_32 k hk) hj,
  bit-pow k j,
  bit-le w j,
)

-- The memory after `set_frame` and `clear_frame`.
unfoldable pub set_frame_memory : Memory → (frames f : ℕ) → Memory
set_frame_memory m frames f =
    store32 m (frames + 4 * (f / 32)) (bit_or (load32 m (frames + 4 * (f / 32))) (2 ^ (f % 32)))

unfoldable pub clear_frame_memory : Memory → (frames f : ℕ) → Memory
clear_frame_memory m frames f =
    store32 m (frames + 4 * (f / 32))
      (bit_and (load32 m (frames + 4 * (f / 32))) (complement32 (2 ^ (f % 32))))

pub frame_bit-set_frame_memory :
    (m : Memory) (frames f g : ℕ)
    → frame_bit (set_frame_memory m frames f) frames g
      ≡ (if g == f then 1 else frame_bit m frames g)
unfolding set_frame_memory
frame_bit-set_frame_memory m frames f g =
    bit-store m frames f g _ 1 (bit_or-lt 32 _ _ (load32-lt _ _) (pow-lt_32 _ (omega arith)))
      (λ j h. bit-bit_or_pow _ _ j)

pub frame_bit-clear_frame_memory :
    (m : Memory) (frames f g : ℕ)
    → frame_bit (clear_frame_memory m frames f) frames g
      ≡ (if g == f then 0 else frame_bit m frames g)
unfolding clear_frame_memory
frame_bit-clear_frame_memory m frames f g =
    bit-store m frames f g _ 0 (bit_and-lt 32 _ _ (load32-lt _ _))
      (λ j h. bit-bit_and_pow _ _ j (omega arith) h)

-- `set_frame` returns with the bit of the frame that holds the address set, and every other frame's
-- bit as it was.
pub set_frame_lem :
    (k : Kernel) (addr : ℕ)
    → (k' : Kernel) × (set_frame addr k ≡ ok (tt, k'))
      × ((g : ℕ)
          → frame_bit k'.memory k.frames g
            ≡ (if g == addr / 0x1000 then 1 else frame_bit k.memory k.frames g))
unfolding set_frame set_frame_memory
set_frame_lem k addr = (
  record k { memory = set_frame_memory k.memory k.frames (addr / 0x1000) },
  refl,
  frame_bit-set_frame_memory k.memory k.frames (addr / 0x1000),
)

-- `clear_frame` returns with the bit of the frame that holds the address cleared, and every other
-- frame's bit as it was.
pub clear_frame_lem :
    (k : Kernel) (addr : ℕ)
    → (k' : Kernel) × (clear_frame addr k ≡ ok (tt, k'))
      × ((g : ℕ)
          → frame_bit k'.memory k.frames g
            ≡ (if g == addr / 0x1000 then 0 else frame_bit k.memory k.frames g))
unfolding clear_frame clear_frame_memory
clear_frame_lem k addr = (
  record k { memory = clear_frame_memory k.memory k.frames (addr / 0x1000) },
  refl,
  frame_bit-clear_frame_memory k.memory k.frames (addr / 0x1000),
)
