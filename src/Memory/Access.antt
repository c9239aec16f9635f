-- ===== src/Memory/Access.antt =====
-- Loads after stores.
use cmsi.Base.{ℕ, ◌+◌, ◌/◌, ◌%◌, ◌^◌, ◌≤◌, ◌<◌, ◌≡◌, ◌≢◌, ◌⊎◌, arith, ap}
use cmsi.Base.{◌==◌, if◌then◌else◌}
use cmsi.Memory.{Memory, load8, store8, load32, store32}

pub load8-lt : (m : Memory) (a : ℕ) → load8 m a < 2 ^ 8
unfolding load8
load8-lt m a = omega arith

pub load32-lt : (m : Memory) (a : ℕ) → load32 m a < 2 ^ 32
unfolding load32
load32-lt m a = omega arith

pub load8-store8_self : (m : Memory) (a v : ℕ) → v < 2 ^ 8 → load8 (store8 m a v) a ≡ v
unfolding load8 store8
load8-store8_self m a v h = ground arith

pub load8-store8_ne : (m : Memory) (a v b : ℕ) → b ≢ a → load8 (store8 m a v) b ≡ load8 m b
unfolding load8 store8
load8-store8_ne m a v b h = ground arith

-- The byte at any address after a 32-bit store.
pub store32-at :
    (m : Memory) (a v b : ℕ)
    → store32 m a v b ≡ (
        if b == a
        then v % 2 ^ 8
        else if b == a + 1
        then v / 2 ^ 8 % 2 ^ 8
        else if b == a + 2
        then v / 2 ^ 16 % 2 ^ 8
        else if b == a + 3
        then v / 2 ^ 24 % 2 ^ 8
        else m b)
unfolding store32
store32-at m a v b = ground arith

-- A store changes only the bytes it covers.
pub store32_outside : (m : Memory) (a v b : ℕ) → (b < a) ⊎ (a + 4 ≤ b) → store32 m a v b ≡ m b
store32_outside m a v b h = ground (arith, store32-at m a v b)

pub store8_outside : (m : Memory) (a v b : ℕ) → b ≢ a → store8 m a v b ≡ m b
unfolding store8
store8_outside m a v b h = ground arith

-- Memories that agree on the bytes read load the same.
pub load32_agree :
    (m n : Memory) (a : ℕ) → ((b : ℕ) → a ≤ b → b < a + 4 → m b ≡ n b) → load32 m a ≡ load32 n a
unfolding load32
load32_agree m n a h = ground (
  arith,
  h a (omega arith) (omega arith),
  h (a + 1) (omega arith) (omega arith),
  h (a + 2) (omega arith) (omega arith),
  h (a + 3) (omega arith) (omega arith),
)

pub load32-store32_self : (m : Memory) (a v : ℕ) → v < 2 ^ 32 → load32 (store32 m a v) a ≡ v
unfolding load32
load32-store32_self m a v h = ground (
  arith,
  store32-at m a v a,
  store32-at m a v (a + 1),
  store32-at m a v (a + 2),
  store32-at m a v (a + 3),
)

pub load32-store32_ne :
    (m : Memory) (a v b : ℕ) → (b + 4 ≤ a) ⊎ (a + 4 ≤ b) → load32 (store32 m a v) b ≡ load32 m b
load32-store32_ne m a v b h =
    load32_agree (store32 m a v) m b (λ c p q. store32_outside m a v c (omega arith))

pub load32-store8_ne :
    (m : Memory) (a v b : ℕ) → (b + 4 ≤ a) ⊎ (a < b) → load32 (store8 m a v) b ≡ load32 m b
load32-store8_ne m a v b h =
    load32_agree (store8 m a v) m b (λ c p q. store8_outside m a v c (omega arith))

pub load8-store32_ne :
    (m : Memory) (a v b : ℕ) → (b < a) ⊎ (a + 4 ≤ b) → load8 (store32 m a v) b ≡ load8 m b
unfolding load8
load8-store32_ne m a v b h = ap (λ (t : ℕ). t % 2 ^ 8) (store32_outside m a v b h)

pub load8_agree : (m n : Memory) (a : ℕ) → m a ≡ n a → load8 m a ≡ load8 n a
unfolding load8
load8_agree m n a h = ap (λ (t : ℕ). t % 2 ^ 8) h
