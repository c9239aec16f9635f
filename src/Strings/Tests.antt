-- ===== src/Strings/Tests.antt =====
-- The theorems about strings at concrete memories.
use cmsi.Base.{ℕ, ◌+◌, ◌<◌, ◌≡◌, ◌≢◌, ◌⊎◌, ◌==◌, if◌then◌else◌}
use cmsi.Memory.{Memory, load8}
use cmsi.Strings.{strcmp}
use cmsi.Strings.Laws.{strcmp_lem}

-- "dev" at 0x100.
abbrev some_memory : Memory
some_memory a =
    if a == 0x100 then 0x64 else if a == 0x101 then 0x65 else if a == 0x102 then 0x76 else 0

-- "dev" and the empty string.
strcmp_example :
    ((strcmp some_memory 0x100 0x300 ≡ 0)
      × ((j : ℕ) → j < 4 → load8 some_memory (0x100 + j) ≡ load8 some_memory (0x300 + j)))
    ⊎ ((strcmp some_memory 0x100 0x300 ≡ 1)
        × ((j : ℕ) × (j < 4) × (load8 some_memory (0x100 + j) ≢ load8 some_memory (0x300 + j))))
strcmp_example = strcmp_lem some_memory 0x100 0x300
