-- ===== src/KHeap/Layout.antt =====
-- `header_t` and `footer_t` in memory, and the constants of kheap.h.
use cmsi.Base.{ℕ, ◌+◌}
use cmsi.Memory.{Memory, load32, load8}
use cmsi.Kernel.{Cmd, put32, put8, ◌>>◌}

abbrev pub heap_magic : ℕ
heap_magic = 0x123890ab

abbrev pub heap_index_size : ℕ
heap_index_size = 0x20000

abbrev pub heap_min_size : ℕ
heap_min_size = 0x70000

abbrev pub sizeof_header : ℕ
sizeof_header = 12

abbrev pub sizeof_footer : ℕ
sizeof_footer = 8

abbrev pub page_size : ℕ
page_size = 0x1000

-- The fields of the header at `h`. A footer's `magic` stands at the same offset.
abbrev pub get_magic : Memory → ℕ → ℕ
get_magic m h = load32 m h

abbrev pub get_is_hole : Memory → ℕ → ℕ
get_is_hole m h = load8 m (h + 4)

abbrev pub get_size : Memory → ℕ → ℕ
get_size m h = load32 m (h + 8)

-- The header that a footer names.
abbrev pub get_header : Memory → ℕ → ℕ
get_header m f = load32 m (f + 4)

abbrev pub put_magic : ℕ → Cmd (Unit {0})
put_magic h = put32 h heap_magic

abbrev pub put_is_hole : ℕ → ℕ → Cmd (Unit {0})
put_is_hole h v = put8 (h + 4) v

abbrev pub put_size : ℕ → ℕ → Cmd (Unit {0})
put_size h v = put32 (h + 8) v

abbrev pub put_header : ℕ → ℕ → Cmd (Unit {0})
put_header f h = put32 (f + 4) h

-- A footer's two fields, `magic` first.
abbrev pub put_footer : ℕ → ℕ → Cmd (Unit {0})
put_footer f h = put_magic f >> put_header f h
