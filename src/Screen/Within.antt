-- ===== src/Screen/Within.antt =====
-- How far the functions of screen.c reach in memory, whatever text they write.
use cmsi.Base.{ℕ, zero, suc, ◌+◌, ◌-◌, ◌*◌, ◌^◌, ◌≤◌, ◌<◌, ◌≡◌, ◌⊎◌, inl, inr, refl, ◌∙◌, arith}
use cmsi.Base.{Bool-cases, List, [], ◌∷◌, length, ◌==◌}
use cmsi.Memory.{Memory, store8}
use cmsi.Screen.{
  Screen, fb, fb_write_cell, fb_move_cursor, write_char, write_chars, fb_write, clear_cells,
  clear_screen,
}

-- Nothing but bytes from the framebuffer's start up to `end` differs, and the cursor has moved forward
-- by `n` rows at most.
pub record Within (end n : ℕ) (s t : Screen) : Type 0 where
  pub cursor : t.cursor_position ≤ s.cursor_position + 80 * n
  pub outside : (b : ℕ) → (b < fb) ⊎ (end ≤ b) → t.memory b ≡ s.memory b

pub Within-refl : (end : ℕ) (s : Screen) → Within end 0 s s
Within-refl end s = record { cursor = omega arith; outside = λ b o. refl }

pub Within-trans :
    (end n p q : ℕ) (s t u : Screen)
    → n + p ≡ q
    → Within end n s t
    → Within end p t u
    → Within end q s u
Within-trans end n p q s t u e st tu = record {
  cursor = omega (arith, st.cursor, tu.cursor);
  outside = λ b o. tu.outside b o ∙ st.outside b o;
}

fb_write_cell_outside :
    (i c fg bg end b : ℕ) (m : Memory)
    → fb + i + 2 ≤ end
    → end < 2 ^ 32
    → (b < fb) ⊎ (end ≤ b)
    → fb_write_cell i c fg bg m b ≡ m b
unfolding fb_write_cell store8
fb_write_cell_outside i c fg bg end b m room word o = ground arith

-- A character moves the cursor by a row at most.
write_char-Within :
    (end c : ℕ) (s : Screen)
    → fb + 2 * (s.cursor_position + 80) ≤ end
    → end < 2 ^ 32
    → Within end 1 s (write_char c s)
unfolding write_char fb_move_cursor
write_char-Within end c s room word = elim (Bool-cases (c == 10)) [
  | inl newline ↦ record { cursor = rw newline (ground arith); outside = λ b o. rw newline refl }
  | inr other ↦ elim (Bool-cases (c == 8)) [
    | inl back ↦ record {
      cursor = rw (other, back) (omega arith);
      outside = λ b o.
          rw (other, back)
            (fb_write_cell_outside (2 * (s.cursor_position - 1)) 0x20 0 2 end b s.memory
              (omega arith) word o);
    }
    | inr text ↦ record {
      cursor = rw (other, text) (omega arith);
      outside = λ b o.
          rw (other, text)
            (fb_write_cell_outside (2 * s.cursor_position) c 0 2 end b s.memory (omega arith) word
              o);
    }
  ]
]

write_chars-Within :
    (end : ℕ) (cs : List ℕ) (s : Screen)
    → fb + 2 * (s.cursor_position + 80 * length cs) ≤ end
    → end < 2 ^ 32
    → Within end (length cs) s (write_chars cs s)
unfolding write_chars
write_chars-Within end [] s room word = Within-refl end s
write_chars-Within end (c ∷ cs) s room word =
    let one = write_char-Within end c s (omega arith) word in
    Within-trans end 1 (length cs) (suc (length cs)) s (write_char c s)
      (write_chars cs (write_char c s)) (omega arith) one
      (write_chars-Within end cs (write_char c s) (omega (arith, one.cursor)) word)

pub fb_write-Within :
    (end : ℕ) (cs : List ℕ) (s : Screen)
    → fb + 2 * (s.cursor_position + 80 * length cs) ≤ end
    → end < 2 ^ 32
    → Within end (length cs) s (fb_write cs s)
unfolding fb_write fb_move_cursor
fb_write-Within end cs s room word =
    let w = write_chars-Within end cs s room word in
    record { cursor = w.cursor; outside = w.outside }

clear_cells_outside :
    (n i end b : ℕ) (m : Memory)
    → fb + i + 2 * n ≤ end
    → end < 2 ^ 32
    → (b < fb) ⊎ (end ≤ b)
    → clear_cells n i m b ≡ m b
unfolding clear_cells
clear_cells_outside zero i end b m room word o = refl
clear_cells_outside (suc n) i end b m room word o =
    clear_cells_outside n (i + 2) end b (fb_write_cell i 0x20 0 2 m) (omega arith) word o
    ∙ fb_write_cell_outside i 0x20 0 2 end b m (omega arith) word o

pub clear_screen-Within :
    (end : ℕ) (s : Screen) → fb + 4000 ≤ end → end < 2 ^ 32 → Within end 0 s (clear_screen s)
unfolding clear_screen
clear_screen-Within end s room word = record {
  cursor = omega arith;
  outside = λ b o. clear_cells_outside 2000 0 end b s.memory (omega arith) word o;
}
