-- ===== src/Memory/Tests.antt =====
-- A run of `memcpy` at a concrete memory.
use cmsi.Base.{◌≡◌, refl}
use cmsi.Memory.{Memory, load8, memcpy, store8}

abbrev some_memory : Memory
some_memory a = a

memcpy_run : load8 (memcpy some_memory 100 3 4) 102 ≡ 5
unfolding load8 memcpy store8
memcpy_run = refl
