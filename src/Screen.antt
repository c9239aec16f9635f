-- ===== src/Screen.antt =====
-- IcarusOS/screen.c: the framebuffer of 80 by 25 cells at 0xb8000, each a character and its colours, and
-- the cursor. A write to an I/O port is an effect that the state records, the latest last. `buf` is
-- the list of its `len` characters. `putc` writes one character.
pub mod Cells
pub mod Cursor
pub mod Within
mod Tests
use cmsi.Base.{ℕ, zero, suc, ◌+◌, ◌-◌, ◌*◌, ◌/◌, ◌%◌, ◌^◌, List, [], ◌∷◌, ◌++◌}
use cmsi.Base.{ltb, ◌==◌, if◌then◌else◌, length}
use cmsi.Base.Words.{add32}
use cmsi.Memory.{Memory, store8}

-- outb(port, value)
abbrev pub Out : Type 0
Out = ℕ × ℕ

pub record Screen : Type 0 where
  pub memory : Memory
  pub cursor_position : ℕ
  pub ports : List Out

abbrev pub fb : ℕ
fb = 0xb8000

abbrev pub fb_command_port : ℕ
fb_command_port = 0x3d4

abbrev pub fb_data_port : ℕ
fb_data_port = 0x3d5

abbrev pub fb_high_byte_command : ℕ
fb_high_byte_command = 14

abbrev pub fb_low_byte_command : ℕ
fb_low_byte_command = 15

abbrev pub fb_black : ℕ
fb_black = 0

abbrev pub fb_green : ℕ
fb_green = 2

unfoldable pub fb_write_cell : (i c fg bg : ℕ) → Memory → Memory
fb_write_cell i c fg bg m =
    store8 (store8 m (add32 fb i) c) (add32 fb (add32 i 1)) (fg % 2 ^ 4 * 2 ^ 4 + bg % 2 ^ 4)

-- `pos` is an unsigned short.
unfoldable pub move_cursor_outs : (pos : ℕ) → List Out
move_cursor_outs pos =
    (fb_command_port, fb_high_byte_command)
    ∷ (fb_data_port, pos / 2 ^ 8 % 2 ^ 8)
    ∷ (fb_command_port, fb_low_byte_command)
    ∷ (fb_data_port, pos % 2 ^ 8)
    ∷ []

unfoldable pub fb_move_cursor : (pos : ℕ) → Screen → Screen
fb_move_cursor pos s = record s { ports = s.ports ++ move_cursor_outs (pos % 2 ^ 16) }

-- A character of `fb_write`: a newline (10), a backspace (8), or a character for the cell at the cursor.
-- The cursor is an `int`, which the backspace keeps from falling below 0.
unfoldable pub write_char : (c : ℕ) → Screen → Screen
write_char c s =
    if c == 10
    then (let next = (s.cursor_position / 80 + 1) * 80 in
        let wrapped = if ltb 25 (next / 80) then 0 else next in
        fb_move_cursor wrapped (record s { cursor_position = wrapped }))
    else if c == 8
    then (let back = s.cursor_position - 1 in
        let moved = fb_move_cursor back (record s { cursor_position = back }) in
        record moved { memory = fb_write_cell (2 * back) 0x20 fb_black fb_green moved.memory })
    else record s {
      memory = fb_write_cell (2 * s.cursor_position) c fb_black fb_green s.memory;
      cursor_position = s.cursor_position + 1;
    }

-- The loop of `fb_write`.
unfoldable pub write_chars : List ℕ → Screen → Screen
write_chars [] s = s
write_chars (c ∷ cs) s = write_chars cs (write_char c s)

unfoldable pub fb_write : List ℕ → Screen → Screen
fb_write buf s = let written = write_chars buf s in fb_move_cursor written.cursor_position written

-- The loop of `fb_clock_write`, over `buf` from `i` on; the place wraps around as unsigned int.
unfoldable pub clock_cells : (len i : ℕ) → List ℕ → Memory → Memory
clock_cells len i [] m = m
clock_cells len i (c ∷ cs) m =
    clock_cells len (i + 1) cs
      (fb_write_cell ((2 * 80 + 2 ^ 32 - 2 * (len - i)) % 2 ^ 32) c fb_black fb_green m)

unfoldable pub fb_clock_write : List ℕ → Screen → Screen
fb_clock_write buf s = record s { memory = clock_cells (length buf) 0 buf s.memory }

-- The loop of `clear_screen`, from byte `i` on.
unfoldable pub clear_cells : (rounds i : ℕ) → Memory → Memory
clear_cells zero i m = m
clear_cells (suc n) i m = clear_cells n (i + 2) (fb_write_cell i 0x20 fb_black fb_green m)

unfoldable pub clear_screen : Screen → Screen
clear_screen s = record s { memory = clear_cells (80 * 25) 0 s.memory }

unfoldable pub putc : (c : ℕ) → Screen → Screen
putc c s = fb_write (c ∷ []) s
