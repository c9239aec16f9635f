-- ===== src/Strings.antt =====
-- The string functions of IcarusOS/util.c, over byte memory. A string ends with a byte 0; a loop over one
-- takes fuel, which suffices if it is more than the string's length.
pub mod Laws
mod Tests
use cmsi.Base.{ℕ, zero, suc, ◌+◌, ◌-◌, ◌^◌, ltb, ◌==◌, if◌then◌else◌}
use cmsi.Base.Words.{add32}
use cmsi.Base.Outcome.{Outcome, ok, stop, out_of_fuel}
use cmsi.Memory.{Memory, load8, store8}

-- The size of a pointer, which is what `strcmp` takes for the size of its strings.
abbrev pub sizeof_string : ℕ
sizeof_string = 4

-- The loop of `strcmp`, from byte `i` on.
unfoldable pub strcmp_from : Memory → (string1 string2 rounds i : ℕ) → ℕ
strcmp_from m string1 string2 zero i = 0
strcmp_from m string1 string2 (suc n) i =
    let rest = strcmp_from m string1 string2 n (i + 1) in
    if load8 m (string1 + i) == load8 m (string2 + i) then rest else 1

-- -1 is its bit pattern.
unfoldable pub strcmp : Memory → (string1 string2 : ℕ) → ℕ
strcmp m string1 string2 =
    if ltb sizeof_string sizeof_string
    then 2 ^ 32 - 1
    else if ltb sizeof_string sizeof_string
    then 1
    else strcmp_from m string1 string2 sizeof_string 0

-- The loop of `strcpy`, from byte `i` on, with the byte 0 behind it.
unfoldable pub strcpy_from : (fuel : ℕ) → Memory → (dest source i : ℕ) → Outcome Memory
strcpy_from zero m dest source i = stop out_of_fuel
strcpy_from (suc n) m dest source i =
    let rest = strcpy_from n (store8 m (dest + i) (load8 m (source + i))) dest source (i + 1) in
    if load8 m (source + i) == 0 then ok (store8 m (dest + i) 0) else rest

unfoldable pub strcpy : (fuel : ℕ) → Memory → (dest source : ℕ) → Outcome Memory
strcpy fuel m dest source = strcpy_from fuel m dest source 0

-- The loop of `strlen`: `src` has moved to the byte at hand, and `i` counts.
unfoldable pub strlen_from : (fuel : ℕ) → Memory → (src i : ℕ) → Outcome ℕ
strlen_from zero m src i = stop out_of_fuel
strlen_from (suc n) m src i =
    let rest = strlen_from n m (src + 1) (add32 i 1) in if load8 m src == 0 then ok i else rest

unfoldable pub strlen : (fuel : ℕ) → Memory → (src : ℕ) → Outcome ℕ
strlen fuel m src = strlen_from fuel m src 0
