-- ===== src/Screen/Cells.antt =====
-- What the functions of screen.c leave in the framebuffer.
use cmsi.Base.{ℕ, zero, suc, ◌+◌, ◌-◌, ◌*◌, ◌/◌, ◌%◌, ◌^◌, ◌≤◌, ◌<◌, ◌≡◌, ◌≢◌, refl, arith, ◌∙◌, ap}
use cmsi.Base.{
  Bool-cases, inl, inr, false, List, [], ◌∷◌, length, get_or, ltb, leb, ◌==◌, if◌then◌else◌, ◌&&◌,
}
use cmsi.Memory.{Memory, store8}
use cmsi.Screen.{Screen, fb, fb_write_cell, write_char, write_chars, fb_write, fb_move_cursor}
use cmsi.Screen.{clock_cells, fb_clock_write, clear_cells, clear_screen}

-- A byte of the framebuffer after a cell is written.
fb_write_cell-at :
    (i c : ℕ) (m : Memory) (b : ℕ)
    → i < 2 ^ 30
    → fb_write_cell i c 0 2 m (fb + b)
      ≡ (if b == i + 1 then 2 else if b == i then c % 2 ^ 8 else m (fb + b))
unfolding fb_write_cell store8
fb_write_cell-at i c m b h = ground arith

clear_cells-at :
    (n i : ℕ) (m : Memory) (b : ℕ)
    → 2 * i + 2 * n < 2 ^ 30
    → clear_cells n (2 * i) m (fb + b) ≡ (
        if leb (2 * i) b && ltb b (2 * i + 2 * n)
        then (if b % 2 == 0 then 0x20 else 2)
        else m (fb + b))
unfolding clear_cells
clear_cells-at zero i m b h = ground arith
clear_cells-at (suc n) i m b h = ground (
  arith,
  ap (λ (j : ℕ). clear_cells n j (fb_write_cell (2 * i) 0x20 0 2 m) (fb + b)) next,
  clear_cells-at n (i + 1) (fb_write_cell (2 * i) 0x20 0 2 m) b (omega arith),
  fb_write_cell-at (2 * i) 0x20 m b (omega arith),
)
  where
    next : 2 * i + 2 ≡ 2 * (i + 1)
    next = omega arith

-- `clear_screen` fills the 80 by 25 cells with blanks in their colours, leaves every byte behind
-- them as it was, and does not move the cursor.
pub clear_screen_lem :
    (s : Screen) (b : ℕ)
    → ((clear_screen s).memory (fb + b)
        ≡ (if ltb b (2 * 80 * 25) then (if b % 2 == 0 then 0x20 else 2) else s.memory (fb + b)))
      × ((clear_screen s).cursor_position ≡ s.cursor_position)
unfolding clear_screen
clear_screen_lem s b = (clear_cells-at 2000 0 s.memory b (omega arith) ∙ ground arith, refl)

-- A position from `place` on in a list that starts there.
get_or-from :
    (c : ℕ) (cs : List ℕ) (x place : ℕ)
    → get_or (c ∷ cs) (x - place) 0 ≡ (if leb x place then c else get_or cs (x - (place + 1)) 0)
get_or-from c cs x place = elim (Bool-cases (leb x place)) [
  | inl low ↦
      let none_left : x - place ≡ 0 = ground arith in
      ap (λ (j : ℕ). get_or (c ∷ cs) j 0) none_left ∙ ground arith
  | inr high ↦
      let more : x - place ≡ suc (x - (place + 1)) = ground arith in
      ap (λ (j : ℕ). get_or (c ∷ cs) j 0) more ∙ ground arith
]

clock_cells-at :
    (n i : ℕ) (cs : List ℕ) (m : Memory) (b : ℕ)
    → n ≤ 80
    → i + length cs ≡ n
    → clock_cells n i cs m (fb + b) ≡ (
        if leb (2 * (80 - n + i)) b && ltb b 160
        then (if b % 2 == 0 then get_or cs (b / 2 - (80 - n + i)) 0 % 2 ^ 8 else 2)
        else m (fb + b))
unfolding clock_cells
clock_cells-at n i [] m b h e = ground arith
clock_cells-at n i (c ∷ cs) m b h e =
    let place : (2 * 80 + 2 ^ 32 - 2 * (n - i)) % 2 ^ 32 ≡ 2 * (80 - n + i) = omega arith in
    ap (λ (j : ℕ). clock_cells n (i + 1) cs (fb_write_cell j c 0 2 m) (fb + b)) place
    ∙ ground (
      arith,
      clock_cells-at n (i + 1) cs (fb_write_cell (2 * (80 - n + i)) c 0 2 m) b h (omega arith),
      fb_write_cell-at (2 * (80 - n + i)) c m b (omega arith),
      get_or-from c cs (b / 2) (80 - n + i),
    )

-- The characters that move the cursor otherwise are the newline and the backspace.
abbrev pub IsText : List ℕ → Type 0
IsText [] = Unit
IsText (c ∷ cs) = (c ≢ 10) × (c ≢ 8) × IsText cs

-- The state after a character that goes to the cell at the cursor.
abbrev after_char : ℕ → Screen → Screen
after_char c s = record s {
  memory = fb_write_cell (2 * s.cursor_position) c 0 2 s.memory;
  cursor_position = s.cursor_position + 1;
}

write_char-text : (c : ℕ) (s : Screen) → c ≢ 10 → c ≢ 8 → write_char c s ≡ after_char c s
unfolding write_char
write_char-text c s n k =
    let newline : (c == 10) ≡ false = ground arith in
    let backspace : (c == 8) ≡ false = ground arith in rw (newline, backspace)

-- A byte of the framebuffer when the text `cs` is written from cell `p` on.
abbrev pub text_byte : (p : ℕ) → (cs : List ℕ) → Memory → (b : ℕ) → ℕ
text_byte p cs m b =
    if leb (2 * p) b && ltb b (2 * (p + length cs))
    then (if b % 2 == 0 then get_or cs (b / 2 - p) 0 % 2 ^ 8 else 2)
    else m (fb + b)

text_byte-cons :
    (p c : ℕ) (cs : List ℕ) (m : Memory) (b : ℕ)
    → 2 * p < 2 ^ 30
    → text_byte (p + 1) cs (fb_write_cell (2 * p) c 0 2 m) b ≡ text_byte p (c ∷ cs) m b
text_byte-cons p c cs m b h =
    ground (arith, fb_write_cell-at (2 * p) c m b h, get_or-from c cs (b / 2) p)

write_chars-at :
    (cs : List ℕ) (s : Screen) (b : ℕ)
    → IsText cs
    → 2 * (s.cursor_position + length cs) < 2 ^ 30
    → ((write_chars cs s).memory (fb + b) ≡ text_byte s.cursor_position cs s.memory b)
      × ((write_chars cs s).cursor_position ≡ s.cursor_position + length cs)
unfolding write_chars
write_chars-at [] s b t h = (ground arith, omega arith)
write_chars-at (c ∷ cs) s b (n, k, t) h =
    let p = s.cursor_position in
    let (cells, cursor) = write_chars-at cs (after_char c s) b t (omega arith) in
    let one = write_char-text c s n k in
    (
      ap (λ (s' : Screen). (write_chars cs s').memory (fb + b)) one
          ∙ cells
          ∙ text_byte-cons p c cs s.memory b (omega arith),
      ap (λ (s' : Screen). (write_chars cs s').cursor_position) one ∙ cursor ∙ omega arith,
    )

-- For text without newlines and backspaces, whose end is within 2^29 cells, `fb_write` puts each
-- character with its colours into the cells from the cursor on, leaves every other byte from the
-- framebuffer's start on as it was, and moves the cursor behind the text.
pub fb_write-text :
    (cs : List ℕ) (s : Screen) (b : ℕ)
    → IsText cs
    → 2 * (s.cursor_position + length cs) < 2 ^ 30
    → ((fb_write cs s).memory (fb + b) ≡ text_byte s.cursor_position cs s.memory b)
      × ((fb_write cs s).cursor_position ≡ s.cursor_position + length cs)
unfolding fb_write fb_move_cursor
fb_write-text cs s b t h = write_chars-at cs s b t h

-- `fb_clock_write` puts a text of at most 80 characters at the end of the first row, leaves every
-- other byte from the framebuffer's start on as it was, and does not move the cursor.
pub fb_clock_write_lem :
    (cs : List ℕ) (s : Screen) (b : ℕ)
    → length cs ≤ 80
    → ((fb_clock_write cs s).memory (fb + b) ≡ text_byte (80 - length cs) cs s.memory b)
      × ((fb_clock_write cs s).cursor_position ≡ s.cursor_position)
unfolding fb_clock_write
fb_clock_write_lem cs s b h =
    (clock_cells-at (length cs) 0 cs s.memory b h (omega arith) ∙ ground arith, refl)
