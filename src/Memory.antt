-- ===== src/Memory.antt =====
-- The memory that C pointers lead to, byte by byte, with the little-endian accesses of the i386, and
-- `memset` and `memcpy` of IcarusOS/util.c.
pub mod Access
pub mod Blocks
mod Tests
use cmsi.Base.{ℕ, zero, suc, ◌+◌, ◌*◌, ◌/◌, ◌%◌, ◌^◌, ◌==◌, if◌then◌else◌}

-- The content of each address.
abbrev pub Memory : Type 0
Memory = ℕ → ℕ

unfoldable pub load8 : Memory → ℕ → ℕ
load8 m a = m a % 2 ^ 8

unfoldable pub store8 : Memory → ℕ → ℕ → Memory
store8 m a v b = if b == a then v % 2 ^ 8 else m b

unfoldable pub load32 : Memory → ℕ → ℕ
unfolding load8
load32 m a =
    load8 m a + 2 ^ 8 * load8 m (a + 1) + 2 ^ 16 * load8 m (a + 2) + 2 ^ 24 * load8 m (a + 3)

unfoldable pub store32 : Memory → ℕ → ℕ → Memory
unfolding store8
store32 m a v =
    store8 (store8 (store8 (store8 m a v) (a + 1) (v / 2 ^ 8)) (a + 2) (v / 2 ^ 16)) (a + 3)
      (v / 2 ^ 24)

-- The loop of `memset`, from `array[i]` on.
memset_from : Memory → ℕ → ℕ → (rounds i : ℕ) → Memory
memset_from m ptr val zero i = m
memset_from m ptr val (suc n) i = memset_from (store8 m (ptr + i) val) ptr val n (i + 1)

unfoldable pub memset : Memory → ℕ → ℕ → ℕ → Memory
unfolding memset_from
memset m ptr value num = memset_from m ptr (value % 2 ^ 8) num 0

-- `for (; len != 0; len--) *dp++ = *sp++;`
unfoldable pub memcpy : Memory → (dest src len : ℕ) → Memory
memcpy m dest src zero = m
memcpy m dest src (suc n) = memcpy (store8 m dest (load8 m src)) (dest + 1) (src + 1) n
