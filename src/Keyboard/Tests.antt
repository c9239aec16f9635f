-- ===== src/Keyboard/Tests.antt =====
-- The theorems about the keyboard at concrete codes.
use cmsi.Base.{◌+◌, ◌<◌}
use cmsi.Base.{ℕ, ◌%◌, ◌≡◌, refl, arith, true, false, not, ◌||◌, [], ◌∷◌, List}
use cmsi.Base.{◌==◌, if◌then◌else◌, get_or}
use cmsi.Screen.{Screen}
use cmsi.Keyboard.{Keyboard, kbdus1, kbdus2, lookup_code, echo_keyboard}
use cmsi.Keyboard.Codes.{lookup_code-letter, echo_keyboard-locked}
use cmsi.Keyboard.Keys.{after_codes, times, held, after_codes-keys}
use cmsi.Screen.{fb_write}

abbrev locked : Keyboard
locked = record { cap_locks = true; shift_l = false; shift_r = false }

abbrev some_screen : Screen
some_screen = record { memory = λ a. 0; cursor_position = 3; ports = [] }

lookup_code-letter_example :
    lookup_code locked 16
    ≡ (if true || false || false then get_or kbdus2 16 0 else get_or kbdus1 16 0)
lookup_code-letter_example = lookup_code-letter locked 16 (omega arith) refl

-- The key of the digit 1.
echo_keyboard-locked_example :
    (x : ℕ) × (x + 0x20 ≡ 0x31)
    × (x < 0x20)
    × (echo_keyboard 2 (locked, some_screen)
        ≡ (locked, if x == 0 then some_screen else fb_write (x ∷ []) some_screen))
echo_keyboard-locked_example =
    echo_keyboard-locked locked 2 some_screen (omega arith) refl refl refl

-- The left shift key, Q, the lock key pressed and released, the shift key released.
abbrev some_codes : List ℕ
some_codes = 0x2a ∷ 0x10 ∷ 0x3a ∷ 0xba ∷ 0xaa ∷ []

after_codes-keys_example :
    ((after_codes some_codes locked).cap_locks
      ≡ (if times 0xba some_codes % 2 == 0 then true else not true))
    × ((after_codes some_codes locked).shift_l ≡ held 0x2a 0xaa some_codes false)
    × ((after_codes some_codes locked).shift_r ≡ held 0x36 0xb6 some_codes false)
after_codes-keys_example = after_codes-keys some_codes locked
