-- ===== src/Screen/Tests.antt =====
-- The theorems about the screen at concrete texts.
use cmsi.Base.{ℕ, ◌+◌, ◌%◌, ◌≡◌, arith, [], ◌∷◌, List}
use cmsi.Screen.{Screen, fb, fb_write}
use cmsi.Screen.Cells.{text_byte, fb_write-text}
use cmsi.Screen.Cursor.{outs, cursor_of, fb_write-cursor}

-- The cursor is in the last column of the first row.
abbrev some_screen : Screen
some_screen = record { memory = λ a. 0; cursor_position = 79; ports = [] }

abbrev hi : List ℕ
hi = 0x68 ∷ 0x69 ∷ []

fb_write-text_example :
    ((fb_write hi some_screen).memory (fb + 160) ≡ text_byte 79 hi some_screen.memory 160)
    × ((fb_write hi some_screen).cursor_position ≡ 81)
fb_write-text_example =
    fb_write-text hi some_screen 160
      ((λ e. omega arith), (λ e. omega arith), ((λ e. omega arith), (λ e. omega arith), tt))
      (omega arith)

fb_write-cursor_example :
    cursor_of (outs (record { selected = 0; high = 0; low = 0 }) (fb_write hi some_screen).ports)
    ≡ (fb_write hi some_screen).cursor_position % 0x10000
fb_write-cursor_example =
    fb_write-cursor hi some_screen (record { selected = 0; high = 0; low = 0 })
