-- ===== src/Paging/FirstFrame.antt =====
-- `first_frame`: which frame the search of the bitset finds.
use cmsi.Base.{ℕ, zero, suc, ◌+◌, ◌*◌, ◌/◌, ◌%◌, ◌^◌, ◌≤◌, ◌<◌, ◌≡◌, refl, ◌⊎◌, inl, inr}
use cmsi.Base.{none, some, bit_and, arith}
use cmsi.Base.{◌==◌, Bool-cases}
use cmsi.Base.Bits.{bit, bit-le, bit-zero, bit_complement, bit_and-pow}
use cmsi.Base.Outcome.{ok}
use cmsi.Memory.{Memory, load32}
use cmsi.Kernel.{Kernel}
use cmsi.Paging.{first_bit}
use native.Mathlib.Nat.{one-le-pow}
use cmsi.Paging.{first_frame_from}
use cmsi.Base.{true}
use cmsi.Base.{◌-◌, Option-cases}
use cmsi.Base.{ltb}
use cmsi.Base.{◌∙◌}
use cmsi.Paging.{first_frame}
use cmsi.Paging.Frames.{frame_bit}

-- The test `!(w & (1 << j))` is that of the bit.
bit_zero_or_one : (w j : ℕ) → (bit w j ≡ 0) ⊎ (bit w j ≡ 1)
bit_zero_or_one w j = omega (arith, bit-le w j)

clear_test : (w j : ℕ) → (bit_and w (2 ^ j) == 0) ≡ (bit w j == 0)
clear_test w j = elim (bit_zero_or_one w j) [
  | inl e ↦ rw (bit_and-pow j w, e) (ground arith)
  | inr e ↦ rw (bit_and-pow j w, e) (ground (arith, one-le-pow j 2))
]

-- What the inner loop returns: the least clear bit from `j` on.
first_bit-some :
    (n w j r : ℕ)
    → first_bit w n j ≡ some r
    → (j ≤ r) × (r < j + n) × (bit w r ≡ 0) × ((i : ℕ) → j ≤ i → i < r → bit w i ≡ 1)
unfolding first_bit
first_bit-some zero w j r h = cc
first_bit-some (suc n) w j r h = elim (bit_zero_or_one w j) [
  | inl e ↦ ground (arith, clear_test w j)
  | inr e ↦
      let next : first_bit w n (j + 1) ≡ some r = ground (arith, clear_test w j) in
      let (low, high, clear, below) = first_bit-some n w (j + 1) r next in
      (omega arith, omega arith, clear, λ i p q. ground (arith, below i))
]

first_bit-none : (n w j : ℕ) → first_bit w n j ≡ none → (i : ℕ) → j ≤ i → i < j + n → bit w i ≡ 1
unfolding first_bit
first_bit-none zero w j h i p q = absurd (omega arith)
first_bit-none (suc n) w j h i p q = elim (bit_zero_or_one w j) [
  | inl e ↦ ground (arith, clear_test w j)
  | inr e ↦
      let next : first_bit w n (j + 1) ≡ none = ground (arith, clear_test w j) in
      ground (arith, first_bit-none n w (j + 1) next i)
]

-- Every frame from word `i` of the bitset up to word `j` is in use.
abbrev pub AllUsed : Memory → (frames i j : ℕ) → Type 0
AllUsed m frames i j = (g : ℕ) → 32 * i ≤ g → g < 32 * j → frame_bit m frames g ≡ 1

-- `r` is the least frame not in use, from word `i` on, and lies below word `j`.
pub record IsFirstFree (m : Memory) (frames i j r : ℕ) : Type 0 where
  pub from : 32 * i ≤ r
  pub below : r < 32 * j
  pub free : frame_bit m frames r ≡ 0
  pub used : (g : ℕ) → 32 * i ≤ g → g < r → frame_bit m frames g ≡ 1

frame_bit-word :
    (m : Memory) (frames i g : ℕ)
    → 32 * i ≤ g
    → g < 32 * (i + 1)
    → frame_bit m frames g ≡ bit (load32 m (frames + 4 * i)) (g - 32 * i)
unfolding frame_bit
frame_bit-word m frames i g p q =
    let word : g / 32 ≡ i = omega arith in
    let place : g % 32 ≡ g - 32 * i = omega arith in rw (word, place)

pub full_word : (w j : ℕ) → (w == 0xffff_ffff) ≡ true → j < 32 → bit w j ≡ 1
full_word w j h p =
    let e : w ≡ 0xffff_ffff = ground arith in
    rw e (bit_complement 32 0 j (omega arith) p ∙ omega (arith, bit-zero j))

AllUsed-word :
    (m : Memory) (frames i j : ℕ)
    → ((b : ℕ) → b < 32 → bit (load32 m (frames + 4 * i)) b ≡ 1)
    → AllUsed m frames (i + 1) j
    → AllUsed m frames i j
AllUsed-word m frames i j h rest g p q = elim (Bool-cases (ltb g (32 * (i + 1)))) [
  | inl here ↦ frame_bit-word m frames i g p (ground arith) ∙ h (g - 32 * i) (ground arith)
  | inr later ↦ rest g (ground arith) q
]

-- The outcome of the search: the least free frame, or 0 when all are in use.
abbrev pub Found : Memory → (frames i j r : ℕ) → Type 0
Found m frames i j r = IsFirstFree m frames i j r ⊎ ((r ≡ 0) × AllUsed m frames i j)

Found-word :
    (m : Memory) (frames i j r : ℕ)
    → ((b : ℕ) → b < 32 → bit (load32 m (frames + 4 * i)) b ≡ 1)
    → Found m frames (i + 1) j r
    → Found m frames i j r
Found-word m frames i j r h (inl first) = inl (record {
  from = omega arith;
  below = first.below;
  free = first.free;
  used = AllUsed-word_below;
})
  where
    AllUsed-word_below : (g : ℕ) → 32 * i ≤ g → g < r → frame_bit m frames g ≡ 1
    AllUsed-word_below g p q = elim (Bool-cases (ltb g (32 * (i + 1)))) [
      | inl here ↦ frame_bit-word m frames i g p (ground arith) ∙ h (g - 32 * i) (ground arith)
      | inr later ↦ first.used g (ground arith) q
    ]
Found-word m frames i j r h (inr (zero_result, all)) =
    inr (zero_result, AllUsed-word m frames i j h all)

IsFirstFree-word :
    (m : Memory) (frames i j r : ℕ)
    → i < j
    → first_bit (load32 m (frames + 4 * i)) 32 0 ≡ some r
    → IsFirstFree m frames i j (i * 4 * 8 + r)
IsFirstFree-word m frames i j r h e =
    let (_, high, clear, below) = first_bit-some 32 (load32 m (frames + 4 * i)) 0 r e in
    let place : i * 4 * 8 + r - 32 * i ≡ r = omega arith in
    record {
      from = omega arith;
      below = omega arith;
      free = frame_bit-word m frames i (i * 4 * 8 + r) (omega arith) (omega arith) ∙ rw place clear;
      used = λ g p q.
          frame_bit-word m frames i g p (omega arith)
          ∙ below (g - 32 * i) (omega arith) (omega arith);
    }

first_frame_from-Found :
    (n i j : ℕ) (m : Memory) (frames : ℕ)
    → j ≡ i + n
    → Found m frames i j (first_frame_from m frames n i)
unfolding first_frame_from
first_frame_from-Found zero i j m frames e = inr (refl, λ g p q. absurd (omega arith))
first_frame_from-Found (suc n) i j m frames e =
    let ih = first_frame_from-Found n (i + 1) j m frames (omega arith) in
    elim (Bool-cases (load32 m (frames + 4 * i) == 0xffff_ffff)) [
      | inl full ↦ rw full (Found-word m frames i j _ (λ b p. full_word _ b full p) ih)
      | inr some_clear ↦ elim (Option-cases (first_bit (load32 m (frames + 4 * i)) 32 0)) [
        | inl no_bit ↦
            rw (some_clear, no_bit)
              (Found-word m frames i j _ (λ b p. first_bit-none 32 _ 0 no_bit b (omega arith) p) ih)
        | inr (r, found) ↦
            rw (some_clear, found) (inl (IsFirstFree-word m frames i j r (omega arith) found))
      ]
    ]

-- `first_frame` always returns and changes nothing; its result is the least frame not in use among
-- the whole words of the bitset, or 0 when all are in use.
pub first_frame-Found :
    (k : Kernel)
    → (r : ℕ) × (first_frame k ≡ ok (r, k)) × Found k.memory k.frames 0 (k.nframes / 32) r
unfolding first_frame
first_frame-Found k = (
  first_frame_from k.memory k.frames (k.nframes / 32) 0,
  refl,
  first_frame_from-Found (k.nframes / 32) 0 (k.nframes / 32) k.memory k.frames (omega arith),
)
