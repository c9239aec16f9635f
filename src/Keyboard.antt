-- ===== src/Keyboard.antt =====
-- IcarusOS/keyboard.c: from scan codes to characters. The state is that of the lock and shift keys; the
-- scan code that `inb` reads is an argument. The tables are written up to their last initializer, as
-- in the source: C fills the rest of their 128 entries with 0.
pub mod Codes
pub mod Keys
mod Tests
use cmsi.Base.{ℕ, ◌+◌, ◌-◌, ◌%◌, ◌^◌, Bool, true, false, not, ◌||◌, List, [], ◌∷◌}
use cmsi.Base.{ltb, ◌==◌, if◌then◌else◌, get_or}
use cmsi.Screen.{Screen, fb_write}

abbrev pub kbdus1 : List ℕ
kbdus1 =
    0 ∷ 27 ∷ 49 ∷ 50 ∷ 51 ∷ 52 ∷ 53 ∷ 54 ∷ 55 ∷ 56 ∷ 57 ∷ 48 ∷ 45 ∷ 61 ∷ 8 ∷ 9 ∷ 113 ∷ 119 ∷ 101
    ∷ 114 ∷ 116 ∷ 121 ∷ 117 ∷ 105 ∷ 111 ∷ 112 ∷ 91 ∷ 93 ∷ 10 ∷ 0 ∷ 97 ∷ 115 ∷ 100 ∷ 102 ∷ 103 ∷ 104
    ∷ 106 ∷ 107 ∷ 108 ∷ 59 ∷ 39 ∷ 96 ∷ 0 ∷ 92 ∷ 122 ∷ 120 ∷ 99 ∷ 118 ∷ 98 ∷ 110 ∷ 109 ∷ 44 ∷ 46 ∷ 47
    ∷ 0 ∷ 42 ∷ 0 ∷ 32 ∷ 0 ∷ 0 ∷ 0 ∷ 0 ∷ 0 ∷ 0 ∷ 0 ∷ 0 ∷ 0 ∷ 0 ∷ 0 ∷ 0 ∷ 0 ∷ 0 ∷ 0 ∷ 0 ∷ 45 ∷ 0 ∷ 0
    ∷ 0 ∷ 43 ∷ 0 ∷ 0 ∷ 0 ∷ 0 ∷ 0 ∷ 0 ∷ 0 ∷ 0 ∷ 0 ∷ 0 ∷ 0 ∷ []

abbrev pub kbdus2 : List ℕ
kbdus2 =
    0 ∷ 27 ∷ 33 ∷ 64 ∷ 35 ∷ 36 ∷ 37 ∷ 94 ∷ 38 ∷ 42 ∷ 40 ∷ 41 ∷ 95 ∷ 43 ∷ 8 ∷ 0 ∷ 81 ∷ 87 ∷ 69 ∷ 82
    ∷ 84 ∷ 89 ∷ 85 ∷ 73 ∷ 79 ∷ 80 ∷ 123 ∷ 125 ∷ 10 ∷ 0 ∷ 65 ∷ 83 ∷ 68 ∷ 70 ∷ 71 ∷ 72 ∷ 74 ∷ 75 ∷ 76
    ∷ 58 ∷ 34 ∷ 126 ∷ 0 ∷ 92 ∷ 90 ∷ 88 ∷ 67 ∷ 86 ∷ 66 ∷ 78 ∷ 77 ∷ 60 ∷ 62 ∷ 63 ∷ 0 ∷ 42 ∷ 0 ∷ 32 ∷ 0
    ∷ 0 ∷ 0 ∷ 0 ∷ 0 ∷ 0 ∷ 0 ∷ 0 ∷ 0 ∷ 0 ∷ 0 ∷ 0 ∷ 0 ∷ 0 ∷ 0 ∷ 0 ∷ 45 ∷ 0 ∷ 0 ∷ 0 ∷ 43 ∷ 0 ∷ 0 ∷ 0
    ∷ 0 ∷ 0 ∷ 0 ∷ 0 ∷ 0 ∷ 0 ∷ 0 ∷ 0 ∷ []

pub record Keyboard : Type 0 where
  pub cap_locks : Bool
  pub shift_l : Bool
  pub shift_r : Bool

abbrev pub caps_release : ℕ
caps_release = 0xba

abbrev pub left_shift : ℕ
left_shift = 0x2a

abbrev pub right_shift : ℕ
right_shift = 0x36

abbrev pub left_shift_release : ℕ
left_shift_release = 0xaa

abbrev pub right_shift_release : ℕ
right_shift_release = 0xb6

-- 'a' - 'A'
abbrev pub magic_num : ℕ
magic_num = 0x61 - 0x41

-- The result is a uint8_t.
unfoldable pub to_upper_case : ℕ → ℕ
to_upper_case character = (character + 2 ^ 8 - magic_num) % 2 ^ 8

unfoldable pub to_lower_case : ℕ → ℕ
to_lower_case character = (character + magic_num) % 2 ^ 8

-- The part of `convertToAscii` behind the tests for the lock and shift keys.
unfoldable pub lookup_code : Keyboard → (code : ℕ) → ℕ
lookup_code kb code =
    if ltb 0x7f code
    then 0
    else if kb.shift_l || kb.shift_r
    then get_or kbdus2 (code % 2 ^ 7) 0
    else (let temp = get_or kbdus1 (code % 2 ^ 7) 0 in
        if kb.cap_locks then (if temp == 0 then temp else to_upper_case temp) else temp)

unfoldable pub convert_to_ascii : (code : ℕ) → Keyboard → ℕ × Keyboard
convert_to_ascii code kb =
    if code == caps_release
    then (0, record kb { cap_locks = not kb.cap_locks })
    else if code == left_shift
    then (0, record kb { shift_l = true })
    else if code == left_shift_release
    then (0, record kb { shift_l = false })
    else if code == right_shift
    then (0, record kb { shift_r = true })
    else if code == right_shift_release
    then (0, record kb { shift_r = false })
    else (lookup_code kb code, kb)

-- `echo_keyboard`, for the scan code that the port gives.
unfoldable pub echo_keyboard : (scan_code : ℕ) → Keyboard × Screen → Keyboard × Screen
echo_keyboard scan_code (kb, s) =
    let (c, kb') = convert_to_ascii scan_code kb in (kb', if c == 0 then s else fb_write (c ∷ []) s)
