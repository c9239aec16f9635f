-- ===== src/Keyboard/Codes.antt =====
-- The characters that the lock and shift keys select.
use cmsi.Base.{ℕ, zero, suc, ◌%◌, ◌<◌, ◌≡◌, refl, arith, Bool, true, false, ◌||◌, ◌&&◌}
use cmsi.Base.{ltb, leb, ◌==◌, if◌then◌else◌, get_or, Bool-cases, inl, inr}
use cmsi.Screen.{Screen}
use cmsi.Keyboard.{Keyboard, kbdus1, kbdus2, lookup_code, to_upper_case}
use cmsi.Keyboard.{echo_keyboard}
use cmsi.Keyboard.{convert_to_ascii}
use cmsi.Screen.{fb_write}
use cmsi.Base.{◌≢◌, ◌+◌, ◌-◌, ◌^◌, [], ◌∷◌}
use cmsi.Base.{not}
use cmsi.Base.{◌≤◌}

-- A test holds below a bound.
all_below : ℕ → (ℕ → Bool) → Bool
all_below zero p = true
all_below (suc n) p = p n && all_below n p

all_below_lem : (n : ℕ) (p : ℕ → Bool) (i : ℕ) → all_below n p ≡ true → i < n → p i ≡ true
unfolding all_below
all_below_lem zero p i h l = absurd (omega arith)
all_below_lem (suc n) p i h l = elim (Bool-cases (i == n)) [
  | inl e ↦ ground arith
  | inr e ↦ all_below_lem n p i (ground arith) (ground arith)
]

abbrev pub is_letter : ℕ → Bool
is_letter c = leb 0x61 c && leb c 0x7a

-- Where the first table has a letter, the second has its capital.
letter_test : ℕ → Bool
letter_test c =
    if is_letter (get_or kbdus1 c 0)
    then to_upper_case (get_or kbdus1 c 0) == get_or kbdus2 c 0
    else true

letters : all_below 128 letter_test ≡ true
unfolding all_below letter_test to_upper_case
letters = refl

pub capital :
    (c : ℕ)
    → c < 128
    → is_letter (get_or kbdus1 c 0) ≡ true
    → to_upper_case (get_or kbdus1 c 0) ≡ get_or kbdus2 c 0
unfolding letter_test
capital c h l = ground (arith, all_below_lem 128 letter_test c letters h)

bool_choice :
    (a b d : Bool) (x y : ℕ)
    → (if b || d then x else (if a then x else y)) ≡ (if a || b || d then x else y)
bool_choice true true d x y = refl
bool_choice true false true x y = refl
bool_choice true false false x y = refl
bool_choice false true d x y = refl
bool_choice false false true x y = refl
bool_choice false false false x y = refl

-- For the code of a letter, the result is the capital of the second table if the lock or a shift key
-- is on, both at once included, and the letter of the first table else.
pub lookup_code-letter :
    (kb : Keyboard) (c : ℕ)
    → c < 128
    → is_letter (get_or kbdus1 c 0) ≡ true
    → lookup_code kb c
      ≡ (if kb.cap_locks || kb.shift_l || kb.shift_r then get_or kbdus2 c 0 else get_or kbdus1 c 0)
unfolding lookup_code
lookup_code-letter kb c h l =
    let in_table : c % 128 ≡ c = omega arith in
    let short : ltb 0x7f c ≡ false = ground arith in
    let letter : (get_or kbdus1 c 0 == 0) ≡ false = ground arith in
    simp (short, in_table, letter, capital c h l)
      (bool_choice kb.cap_locks kb.shift_l kb.shift_r (get_or kbdus2 c 0) (get_or kbdus1 c 0))

-- The keys of digits, of the space and of most punctuation marks.
abbrev pub is_mark : ℕ → Bool
is_mark c = leb 0x20 c && ltb c 0x40

-- No key of such a character is a shift key.
mark_test : ℕ → Bool
mark_test c = if is_mark (get_or kbdus1 c 0) then not (c == 0x2a || c == 0x36) else true

marks : all_below 128 mark_test ≡ true
unfolding all_below mark_test
marks = refl

mark_key : (c : ℕ) → c < 128 → is_mark (get_or kbdus1 c 0) ≡ true → (c ≢ 0x2a) × (c ≢ 0x36)
unfolding mark_test
mark_key c h l = ground (arith, all_below_lem 128 mark_test c marks h)

mark_bounds : (x : ℕ) → is_mark x ≡ true → (0x20 ≤ x) × (x < 0x40)
mark_bounds x h = (ground arith, ground arith)

mark-to_upper_case :
    (x : ℕ)
    → is_mark x ≡ true
    → ((if x == 0 then x else to_upper_case x) ≡ x - 0x20)
      × (x - 0x20 + 0x20 ≡ x)
      × (x - 0x20 < 0x20)
unfolding to_upper_case
mark-to_upper_case x h =
    let (low, high) = mark_bounds x h in
    let some_char : (x == 0) ≡ false = ground (arith, low) in
    let less : (x + 2 ^ 8 - 0x20) % 2 ^ 8 ≡ x - 0x20 = omega arith in
    (rw some_char less, omega arith, omega arith)

-- The character of a key as the lock alone changes it.
locked-mark :
    (kb : Keyboard) (c : ℕ)
    → c < 128
    → is_mark (get_or kbdus1 c 0) ≡ true
    → kb.cap_locks ≡ true
    → kb.shift_l || kb.shift_r ≡ false
    → convert_to_ascii c kb ≡ (get_or kbdus1 c 0 - 0x20, kb)
unfolding convert_to_ascii lookup_code
locked-mark kb c h l caps shift =
    let (no_left, no_right) = mark_key c h l in
    let t₁ : (c == 0xba) ≡ false = ground arith in
    let t₂ : (c == 0x2a) ≡ false = ground (arith, no_left) in
    let t₃ : (c == 0xaa) ≡ false = ground arith in
    let t₄ : (c == 0x36) ≡ false = ground (arith, no_right) in
    let t₅ : (c == 0xb6) ≡ false = ground arith in
    let short : ltb 0x7f c ≡ false = ground arith in
    let in_table : c % 2 ^ 7 ≡ c = omega arith in
    let less = (mark-to_upper_case (get_or kbdus1 c 0) l).0 in
    simp (t₁, t₂, t₃, t₄, t₅, short, in_table, caps, shift, less)

-- With the lock on and no shift key down, every key whose character is from the space up to the
-- question mark, the digits included, puts a control character in its place, the one 32 below, to
-- the screen, and nothing if that is 0.
pub echo_keyboard-locked :
    (kb : Keyboard) (c : ℕ) (s : Screen)
    → c < 128
    → is_mark (get_or kbdus1 c 0) ≡ true
    → kb.cap_locks ≡ true
    → kb.shift_l || kb.shift_r ≡ false
    → (x : ℕ) × (x + 0x20 ≡ get_or kbdus1 c 0)
      × (x < 0x20)
      × (echo_keyboard c (kb, s) ≡ (kb, if x == 0 then s else fb_write (x ∷ []) s))
unfolding echo_keyboard
echo_keyboard-locked kb c s h l caps shift =
    let same = locked-mark kb c h l caps shift in
    let (_, back, control) = mark-to_upper_case (get_or kbdus1 c 0) l in
    (get_or kbdus1 c 0 - 0x20, back, control, rw same refl)
