-- ===== src/Screen/Cursor.antt =====
-- The cursor of the display: what the port writes of screen.c come to in a register file that is
-- addressed by the command port and written by the data port.
use cmsi.Base.{ℕ, ◌+◌, ◌*◌, ◌%◌, ◌^◌, ◌≡◌, refl, arith, ◌∙◌, ap, List, [], ◌∷◌, ◌++◌}
use cmsi.Base.{◌==◌, if◌then◌else◌}
use cmsi.Screen.{Screen, Out, move_cursor_outs, fb_move_cursor, fb_write, write_chars}

-- The register selected, and registers 14 and 15.
pub record Display : Type 0 where
  pub selected : ℕ
  pub high : ℕ
  pub low : ℕ

abbrev pub out : Display → Out → Display
out d (port, value) =
    if port == 0x3d4
    then record d { selected = value }
    else if port == 0x3d5
    then (if d.selected == 14
        then record d { high = value }
        else if d.selected == 15
        then record d { low = value }
        else d)
    else d

abbrev pub outs : Display → List Out → Display
outs d [] = d
outs d (o ∷ os) = outs (out d o) os

outs-append : (d : Display) (xs ys : List Out) → outs d (xs ++ ys) ≡ outs (outs d xs) ys
outs-append d [] ys = refl
outs-append d (x ∷ xs) ys = outs-append (out d x) xs ys

abbrev pub cursor_of : Display → ℕ
cursor_of d = d.high * 2 ^ 8 + d.low

outs-move_cursor :
    (d : Display) (pos : ℕ) → cursor_of (outs d (move_cursor_outs (pos % 2 ^ 16))) ≡ pos % 2 ^ 16
unfolding move_cursor_outs
outs-move_cursor d pos = omega arith

-- After `fb_write` of any text the display's cursor register, as its port writes set it from any
-- state of the display, holds the low 16 bits of the cursor position.
pub fb_write-cursor :
    (cs : List ℕ) (s : Screen) (d : Display)
    → cursor_of (outs d (fb_write cs s).ports) ≡ (fb_write cs s).cursor_position % 2 ^ 16
unfolding fb_write fb_move_cursor
fb_write-cursor cs s d =
    let w = write_chars cs s in
    ap cursor_of (outs-append d w.ports (move_cursor_outs (w.cursor_position % 2 ^ 16)))
    ∙ outs-move_cursor (outs d w.ports) w.cursor_position
