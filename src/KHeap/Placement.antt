-- ===== src/KHeap/Placement.antt =====
-- `kmalloc_int` before there is a heap, and how the heap rounds its sizes.
use cmsi.Base.{ℕ, ◌+◌, ◌%◌, ◌/◌, ◌^◌, ◌<◌, ◌≤◌, ◌≡◌, refl, arith, Bool, none}
use cmsi.Base.{if◌then◌else◌, ltb}
use cmsi.Base.Words.{add32}
use cmsi.Base.Outcome.{ok}
use cmsi.Kernel.{Kernel}
use cmsi.KHeap.{kmalloc_int, kmalloc_with, placement_of}
use cmsi.KHeap.Layout.{heap_min_size}
use cmsi.KHeap.Resize.{contract_size, round_up}
use cmsi.Base.{◌≢◌}

-- Where an aligned piece goes when the placement address is `a`.
placement_lem :
    (align a : ℕ)
    → a + 0x1000 < 2 ^ 32
    → (a ≤ placement_of align a)
      × (placement_of align a ≤ a + 0x1000)
      × ((align ≡ 1)
          → 0x1000 ≤ a
          → (placement_of align a % 0x1000 ≡ 0) × (a < placement_of align a))
      × ((a < 0x1000) → placement_of align a ≡ a)
      × (align ≢ 1 → placement_of align a ≡ a)
unfolding placement_of
placement_lem align a word = (
  ground arith,
  ground arith,
  λ e l. (ground arith, ground arith),
  λ l. ground arith,
  λ n. ground arith,
)

-- Without a heap and with no wrap-around, `kmalloc_int` returns a piece at or up to a page behind
-- the placement address, gives that address as the physical one if asked, and moves the placement
-- address to the piece's end; an aligned piece starts on a page, strictly behind the placement
-- address, unless that is below the first page, where the piece is not moved; a piece that is not to
-- be aligned starts at the placement address.
pub kmalloc_early :
    (k : Kernel) (fuel sz align : ℕ) (phys : Bool)
    → k.kheap ≡ none
    → k.placement_address + 0x1000 + sz < 2 ^ 32
    → (addr : ℕ) × (k' : Kernel) × (kmalloc_int fuel sz align phys k
        ≡ ok ((addr, if phys then addr else 0), k'))
      × (k.placement_address ≤ addr)
      × (addr ≤ k.placement_address + 0x1000)
      × (k'.placement_address ≡ addr + sz)
      × (k'.memory ≡ k.memory)
      × (k'.kheap ≡ none)
      × ((align ≡ 1)
          → 0x1000 ≤ k.placement_address
          → (addr % 0x1000 ≡ 0) × (k.placement_address < addr))
      × ((k.placement_address < 0x1000) → addr ≡ k.placement_address)
      × (align ≢ 1 → addr ≡ k.placement_address)
unfolding kmalloc_with
kmalloc_early k fuel sz align phys early word =
    let (above, below, aligned, low, plain) =
      placement_lem align k.placement_address (omega arith) in
    let addr = placement_of align k.placement_address in
    let behind : add32 addr sz ≡ addr + sz = omega arith in
    (
      addr,
      record k { placement_address = addr + sz },
      simp (early, behind),
      above,
      below,
      refl,
      refl,
      early,
      aligned,
      low,
      plain,
    )

-- Without wrap-around, expand rounds a size of at least a page to a multiple of the page size that
-- is larger, by up to a page, and leaves a smaller size as it is.
pub round_up_lem :
    (n : ℕ)
    → n + 0x1000 < 2 ^ 32
    → ((0x1000 ≤ n) → (round_up n % 0x1000 ≡ 0) × (n < round_up n) × (round_up n ≤ n + 0x1000))
      × ((n < 0x1000) → round_up n ≡ n)
unfolding round_up
round_up_lem n word = (λ l. (ground arith, ground arith, ground arith), λ l. ground arith)

-- Contract never rounds its size: a size with bit 12 set becomes the minimum, however large it is,
-- and any other stays, or becomes the minimum if it is below that.
pub contract_size_lem :
    (n : ℕ)
    → ((n / 0x1000 % 2 ≡ 1) → contract_size n ≡ heap_min_size)
      × ((n / 0x1000 % 2 ≡ 0)
          → contract_size n ≡ (if ltb n heap_min_size then heap_min_size else n))
unfolding contract_size
contract_size_lem n = (λ e. ground arith, λ e. ground arith)
