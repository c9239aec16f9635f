-- ===== src/Task/Relocate.antt =====
-- The words that `move_stack` changes in the new stack.
use cmsi.Base.{ℕ, zero, suc, ◌+◌, ◌*◌, ◌^◌, ◌≤◌, ◌<◌, ◌≡◌, ◌⊎◌, inl, inr, refl, sym, ap, ◌∙◌, arith}
use cmsi.Base.{true, false, ◌&&◌, ltb, ◌==◌, if◌then◌else◌, Bool-cases}
use mathlib.Core.Path.{subst}
use cmsi.Base.Words.{add32, sub32}
use cmsi.Base.Outcome.{ok}
use cmsi.Memory.{Memory, load32, store32}
use cmsi.Memory.Access.{load32-store32_self, store32_outside, load32_agree}
use cmsi.Task.{remap}

-- A word that lies inside the old stack moves with it.
abbrev pub relocated : (old_stack_pointer initial_esp offset : ℕ) → ℕ → ℕ
relocated old top offset w = if ltb old w && ltb w top then add32 w offset else w

module _ (old top offset bottom : ℕ) where
  -- The step of the loop at the word `i`.
  stepped : Memory → (i : ℕ) → Memory
  stepped m i =
      if ltb old (load32 m i) && ltb (load32 m i) top
      then store32 m i (add32 (load32 m i) offset)
      else m

  stepped-at : (m : Memory) (i : ℕ) → load32 (stepped m i) i ≡ relocated old top offset (load32 m i)
  unfolding stepped
  stepped-at m i = elim (Bool-cases (ltb old (load32 m i) && ltb (load32 m i) top)) [
    | inl inside ↦ rw inside (load32-store32_self m i _ (omega arith))
    | inr outside ↦ rw outside refl
  ]

  stepped_outside : (m : Memory) (i b : ℕ) → (b < i) ⊎ (i + 4 ≤ b) → stepped m i b ≡ m b
  unfolding stepped
  stepped_outside m i b h = elim (Bool-cases (ltb old (load32 m i) && ltb (load32 m i) top)) [
    | inl inside ↦ rw inside (store32_outside m i _ b h)
    | inr outside ↦ rw outside refl
  ]

  remap-step :
      (fuel i : ℕ) (m : Memory)
      → bottom < i
      → remap old top offset (suc fuel) bottom i m
        ≡ remap old top offset fuel bottom (sub32 i 4) (stepped m i)
  unfolding remap stepped
  remap-step fuel i m h = let more : ltb bottom i ≡ true = ground arith in rw more refl

  remap-end : (fuel : ℕ) (m : Memory) → remap old top offset (suc fuel) bottom bottom m ≡ ok m
  unfolding remap
  remap-end fuel m = let done : ltb bottom bottom ≡ false = ground arith in rw done refl

  -- With more fuel than the `n` words above `bottom`, the last loop of `move_stack` returns: each of
  -- these words that lies strictly inside the old stack has moved by the offset, each other is the
  -- same, and so is every byte outside them.
  pub remap_lem :
      (fuel n : ℕ) (m : Memory)
      → n < fuel
      → bottom + 4 * n < 2 ^ 32
      → (m' : Memory) × (remap old top offset fuel bottom (bottom + 4 * n) m ≡ ok m')
        × ((j : ℕ)
            → j < n
            → load32 m' (bottom + 4 * j + 4)
              ≡ relocated old top offset (load32 m (bottom + 4 * j + 4)))
        × ((b : ℕ) → (b < bottom + 4) ⊎ (bottom + 4 * n + 4 ≤ b) → m' b ≡ m b)
  remap_lem zero n m h word = absurd (omega arith)
  remap_lem (suc f) zero m h word =
      let here : bottom + 4 * 0 ≡ bottom = omega arith in
      (
        m,
        subst (λ i. remap old top offset (suc f) bottom i m ≡ ok m) (sym here) (remap-end f m),
        (λ j l. absurd (omega arith)),
        (λ b o. refl),
      )
  remap_lem (suc f) (suc n) m h word =
      let i = bottom + 4 * suc n in
      let next : sub32 i 4 ≡ bottom + 4 * n = omega arith in
      let top_word : bottom + 4 * n + 4 ≡ i = omega arith in
      let (m', run, words, outside) = remap_lem f n (stepped m i) (omega arith) (omega arith) in
      (
        m',
        remap-step f i m (omega arith)
            ∙ subst (λ p. remap old top offset f bottom p (stepped m i) ≡ ok m') (sym next) run,
        (λ j l. elim (Bool-cases (j == n)) [
          | inl e ↦
              let here : bottom + 4 * j + 4 ≡ i = ground arith in
              subst (λ p. load32 m' p ≡ relocated old top offset (load32 m p)) (sym here)
                (load32_agree m' (stepped m i) i (λ b l u. outside b (omega arith))
                  ∙ stepped-at m i)
          | inr e ↦
              let low : j < n = ground arith in
              words j low
              ∙ ap (relocated old top offset) (
                  load32_agree (stepped m i) m (bottom + 4 * j + 4)
                    (λ b l u. stepped_outside m i b (omega arith)))
        ]),
        (λ b o. outside b (omega arith) ∙ stepped_outside m i b (omega arith)),
      )
