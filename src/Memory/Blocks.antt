-- ===== src/Memory/Blocks.antt =====
-- `memset` and `memcpy` as a whole.
use cmsi.Base.{ℕ, zero, suc, ◌+◌, ◌-◌, ◌%◌, ◌^◌, ◌≤◌, ◌≡◌, ◌⊎◌, ◌&&◌, arith}
use cmsi.Base.{ltb, leb, if◌then◌else◌}
use cmsi.Memory.{Memory, load8, store8, load32, memset_from, memset, memcpy}

memset_from-at :
    (n : ℕ) (m : Memory) (ptr val i b : ℕ)
    → memset_from m ptr val n i b
      ≡ (if leb (ptr + i) b && ltb b (ptr + i + n) then val % 2 ^ 8 else m b)
unfolding memset_from store8
memset_from-at zero m ptr val i b = ground arith
memset_from-at (suc n) m ptr val i b =
    ground (arith, memset_from-at n (store8 m (ptr + i) val) ptr val (i + 1) b)

-- Memset writes the low byte of the value to the `num` addresses from the pointer on, and to no
-- other.
pub memset_lem :
    (m : Memory) (ptr value num b : ℕ)
    → memset m ptr value num b ≡ (if leb ptr b && ltb b (ptr + num) then value % 2 ^ 8 else m b)
unfolding memset
memset_lem m ptr value num b = ground (arith, memset_from-at num m ptr (value % 2 ^ 8) 0 b)

-- A zeroed word reads 0.
pub load32-memset_zero :
    (m : Memory) (ptr num a : ℕ) → ptr ≤ a → a + 4 ≤ ptr + num → load32 (memset m ptr 0 num) a ≡ 0
unfolding load32
load32-memset_zero m ptr num a h k = ground (
  arith,
  memset_lem m ptr 0 num a,
  memset_lem m ptr 0 num (a + 1),
  memset_lem m ptr 0 num (a + 2),
  memset_lem m ptr 0 num (a + 3),
)

-- Between ranges that do not overlap, memcpy copies each byte of the source and changes no other
-- address.
pub memcpy_lem :
    (len : ℕ) (m : Memory) (dest src b : ℕ)
    → (dest + len ≤ src) ⊎ (src + len ≤ dest)
    → memcpy m dest src len b
      ≡ (if leb dest b && ltb b (dest + len) then load8 m (b - dest + src) else m b)
unfolding memcpy load8 store8
memcpy_lem zero m dest src b h = ground arith
memcpy_lem (suc n) m dest src b h =
    ground (arith, memcpy_lem n (store8 m dest (load8 m src)) (dest + 1) (src + 1) b (omega arith))
