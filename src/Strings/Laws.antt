-- ===== src/Strings/Laws.antt =====
-- What the string functions return.
use cmsi.Base.{ℕ, zero, suc, ◌+◌, ◌-◌, ◌^◌, ◌<◌, ◌≤◌, ◌≡◌, ◌≢◌, ◌⊎◌, inl, inr, refl, arith, ap, ◌∙◌}
use cmsi.Base.{ltb, leb, ◌==◌, if◌then◌else◌, ◌&&◌, Bool-cases}
use mathlib.Core.Path.{subst}
use cmsi.Base.{sym, true, false}
use cmsi.Base.Outcome.{ok}
use cmsi.Memory.{Memory, load8, store8}
use cmsi.Memory.Access.{load8-store8_ne}
use cmsi.Strings.{strcmp, strcmp_from, strcpy, strcpy_from, strlen, strlen_from}
use cmsi.Base.Words.{add32}

-- The bytes from `a` on are a string of `n` characters.
pub record IsString (m : Memory) (a n : ℕ) : Type 0 where
  pub text : (i : ℕ) → i < n → load8 m (a + i) ≢ 0
  pub ends : load8 m (a + n) ≡ 0

tail-IsString : (m : Memory) (a n : ℕ) → IsString m a (suc n) → IsString m (a + 1) n
tail-IsString m a n s = record {
  text = λ i h e. s.text (i + 1) (omega arith) (ap (load8 m) (omega arith) ∙ e);
  ends = ap (load8 m) (omega arith) ∙ s.ends;
}

strlen_from_lem :
    (fuel : ℕ) (m : Memory) (a n i : ℕ)
    → IsString m a n
    → n < fuel
    → i + n < 2 ^ 32
    → strlen_from fuel m a i ≡ ok (i + n)
unfolding strlen_from
strlen_from_lem zero m a n i s h w = absurd (omega arith)
strlen_from_lem (suc f) m a zero i s h w =
    let last : load8 m a ≡ 0 = ap (load8 m) (omega arith) ∙ s.ends in ground (arith, last)
strlen_from_lem (suc f) m a (suc n) i s h w =
    let next =
      strlen_from_lem f m (a + 1) n (i + 1) (tail-IsString m a n s) (omega arith) (omega arith) in
    let here : load8 m (a + 0) ≡ load8 m a = ap (load8 m) (omega arith) in
    let more : (load8 m a == 0) ≡ false = ground (arith, s.text 0 (omega arith), here) in
    let one : add32 i 1 ≡ i + 1 = omega arith in
    rw more (ap (λ (j : ℕ). strlen_from f m (a + 1) j) one ∙ next ∙ ap ok (omega arith))

-- With fuel beyond the string's length, which is below 2^32, strlen returns the number of bytes
-- before the first 0.
pub strlen_lem :
    (fuel : ℕ) (m : Memory) (src n : ℕ)
    → IsString m src n
    → n < fuel
    → n < 2 ^ 32
    → strlen fuel m src ≡ ok n
unfolding strlen
strlen_lem fuel m src n s h w =
    strlen_from_lem fuel m src n 0 s h (omega arith) ∙ ap ok (omega arith)

strcmp_from_lem :
    (n : ℕ) (m : Memory) (a b i : ℕ)
    → ((strcmp_from m a b n i ≡ 0)
        × ((j : ℕ) → i ≤ j → j < i + n → load8 m (a + j) ≡ load8 m (b + j)))
      ⊎ ((strcmp_from m a b n i ≡ 1)
          × ((j : ℕ) × (i ≤ j) × (j < i + n) × (load8 m (a + j) ≢ load8 m (b + j))))
unfolding strcmp_from
strcmp_from_lem zero m a b i = inl (refl, λ j l h. absurd (omega arith))
strcmp_from_lem (suc n) m a b i = elim (Bool-cases (load8 m (a + i) == load8 m (b + i))) [
  | inl same ↦ elim (strcmp_from_lem n m a b (i + 1)) [
    | inl (zero_there, all) ↦ inl (
      ground (arith, zero_there),
      λ j l h. elim (Bool-cases (j == i)) [
        | inl e ↦ ground arith
        | inr e ↦ all j (ground arith) (omega arith)
      ],
    )
    | inr (one_there, (j, l, h, differ)) ↦
        inr (ground (arith, one_there), (j, omega arith, omega arith, differ))
  ]
  | inr other ↦ inr (ground arith, (i, omega arith, omega arith, ground arith))
]

-- Strcmp compares four bytes, whatever the strings: it is 0 if they are all the same, and 1 if some
-- differ.
pub strcmp_lem :
    (m : Memory) (string1 string2 : ℕ)
    → ((strcmp m string1 string2 ≡ 0)
        × ((j : ℕ) → j < 4 → load8 m (string1 + j) ≡ load8 m (string2 + j)))
      ⊎ ((strcmp m string1 string2 ≡ 1)
          × ((j : ℕ) × (j < 4) × (load8 m (string1 + j) ≢ load8 m (string2 + j))))
unfolding strcmp
strcmp_lem m a b = elim (strcmp_from_lem 4 m a b 0) [
  | inl (e, all) ↦ inl (e, λ j h. all j (omega arith) (omega arith))
  | inr (e, (j, l, h, differ)) ↦ inr (e, (j, omega arith, differ))
]

-- A string outlives a write to another place.
write-IsString :
    (m : Memory) (a n d v : ℕ)
    → (d < a) ⊎ (a + n < d)
    → IsString m a n
    → IsString (store8 m d v) a n
write-IsString m a n d v apart s = record {
  text = λ i h e. s.text i h (sym (load8-store8_ne m d v (a + i) (λ x. omega arith)) ∙ e);
  ends = load8-store8_ne m d v (a + n) (λ x. omega arith) ∙ s.ends;
}

-- A byte after `n` characters and the 0 behind them are copied from `source` to `dest`.
abbrev pub copied : Memory → (dest source n b : ℕ) → ℕ
copied m dest source n b =
    if leb dest b && ltb b (dest + n)
    then load8 m (b - dest + source)
    else if b == dest + n
    then 0
    else m b

copied-step :
    (m : Memory) (dest source n b : ℕ)
    → (dest + suc n < source) ⊎ (source + suc n < dest)
    → copied (store8 m dest (load8 m source)) (dest + 1) (source + 1) n b
      ≡ copied m dest source (suc n) b
unfolding load8 store8
copied-step m dest source n b apart = ground arith

written : (m : Memory) (dest source b : ℕ) → store8 m dest 0 b ≡ copied m dest source 0 b
unfolding store8
written m dest source b = ground arith

strcpy_from_lem :
    (fuel : ℕ) (m : Memory) (dest source i n : ℕ)
    → IsString m (source + i) n
    → n < fuel
    → (dest + i + n < source + i) ⊎ (source + i + n < dest + i)
    → (m' : Memory) × (strcpy_from fuel m dest source i ≡ ok m')
      × ((b : ℕ) → m' b ≡ copied m (dest + i) (source + i) n b)
unfolding strcpy_from
strcpy_from_lem zero m dest source i n s h apart = absurd (omega arith)
strcpy_from_lem (suc f) m dest source i zero s h apart =
    let end : load8 m (source + i + 0) ≡ load8 m (source + i) = ap (load8 m) (omega arith) in
    let last : (load8 m (source + i) == 0) ≡ true = ground (arith, s.ends, end) in
    (store8 m (dest + i) 0, rw last, λ b. written m (dest + i) (source + i) b)
strcpy_from_lem (suc f) m dest source i (suc n) s h apart =
    let m₁ = store8 m (dest + i) (load8 m (source + i)) in
    let here : load8 m (source + i + 0) ≡ load8 m (source + i) = ap (load8 m) (omega arith) in
    let more : (load8 m (source + i) == 0) ≡ false = ground (arith, s.text 0 (omega arith), here) in
    let source_next : source + i + 1 ≡ source + (i + 1) = omega arith in
    let dest_next : dest + i + 1 ≡ dest + (i + 1) = omega arith in
    let rest =
      subst (λ a. IsString m₁ a n) source_next
        (write-IsString m (source + i + 1) n (dest + i) (load8 m (source + i)) (omega arith)
          (tail-IsString m (source + i) n s)) in
    let (m', run, bytes) =
      strcpy_from_lem f m₁ dest source (i + 1) n rest (omega arith) (omega arith) in
    (
      m',
      rw more run,
      λ b.
          bytes b
          ∙ ap (λ (d : ℕ). copied m₁ d (source + (i + 1)) n b) (sym dest_next)
          ∙ ap (λ (a : ℕ). copied m₁ (dest + i + 1) a n b) (sym source_next)
          ∙ copied-step m (dest + i) (source + i) n b (omega arith),
    )

-- With fuel beyond the string's length, and source and destination apart, strcpy returns with the
-- string and the byte 0 behind it copied and every other byte as it was.
pub strcpy_lem :
    (fuel : ℕ) (m : Memory) (dest source n : ℕ)
    → IsString m source n
    → n < fuel
    → (dest + n < source) ⊎ (source + n < dest)
    → (m' : Memory) × (strcpy fuel m dest source ≡ ok m')
      × ((b : ℕ) → m' b ≡ copied m dest source n b)
unfolding strcpy
strcpy_lem fuel m dest source n s h apart =
    let source_there : source ≡ source + 0 = omega arith in
    let dest_there : dest + 0 ≡ dest = omega arith in
    let (m', run, bytes) =
      strcpy_from_lem fuel m dest source 0 n (subst (λ a. IsString m a n) source_there s) h
        (omega arith) in
    (
      m',
      run,
      λ b.
          bytes b
          ∙ ap (λ (d : ℕ). copied m d (source + 0) n b) dest_there
          ∙ ap (λ (a : ℕ). copied m dest a n b) (sym source_there),
    )
