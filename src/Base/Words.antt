-- ===== src/Base/Words.antt =====
-- 32-bit unsigned arithmetic, with its wrap-around written out, and the masks of a page size.
use Prim.Native.Nat.{ℕ, ◌+◌, ◌-◌, ◌*◌, ◌/◌, ◌%◌, ◌^◌}

-- uint32_t a + b
abbrev pub add32 : ℕ → ℕ → ℕ
add32 a b = (a + b) % 2 ^ 32

-- uint32_t a - b
abbrev pub sub32 : ℕ → ℕ → ℕ
sub32 a b = (a + 2 ^ 32 - b) % 2 ^ 32

-- uint32_t a * b
abbrev pub mul32 : ℕ → ℕ → ℕ
mul32 a b = a * b % 2 ^ 32

-- x & 0xFFFFF000, for a 32-bit x
abbrev pub page_base : ℕ → ℕ
page_base x = x / 0x1000 * 0x1000

-- x & 0xFFF
abbrev pub page_offset : ℕ → ℕ
page_offset x = x % 0x1000
