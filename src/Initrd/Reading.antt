-- ===== src/Initrd/Reading.antt =====
-- What `initrd_read` copies.
use cmsi.Base.{ℕ, ◌+◌, ◌-◌, ◌^◌, ◌≤◌, ◌<◌, ◌≡◌, ◌⊎◌, arith}
use cmsi.Base.{ltb, leb, ◌&&◌, if◌then◌else◌}
use Prim.Native.Nat.{min}
use cmsi.Base.{none, ap, ◌∙◌}
use cmsi.Base.Words.{add32}
use cmsi.Memory.{Memory, load8, memcpy}
use cmsi.Memory.Blocks.{memcpy_lem}
use cmsi.Initrd.{Initrd, initrd_read, read_size, file_header, get_offset, get_length, get_inode}
use cmsi.Base.{some}

-- The address of the file's byte at `offset`.
abbrev pub file_byte : Initrd → Memory → (node offset : ℕ) → ℕ
file_byte g m node offset = add32 (get_offset m (file_header g (get_inode m node))) offset

abbrev pub file_length : Initrd → Memory → (node : ℕ) → ℕ
file_length g m node = get_length m (file_header g (get_inode m node))

initrd_read-runs :
    (g : Initrd) (node offset size buffer : ℕ) (m : Memory) (n : ℕ)
    → read_size (file_length g m node) offset size ≡ some n
    → initrd_read g node offset size buffer m ≡ (n, memcpy m buffer (file_byte g m node offset) n)
unfolding initrd_read
initrd_read-runs g node offset size buffer m n e = cc

initrd_read-behind :
    (g : Initrd) (node offset size buffer : ℕ) (m : Memory)
    → read_size (file_length g m node) offset size ≡ none
    → initrd_read g node offset size buffer m ≡ (0, m)
unfolding initrd_read
initrd_read-behind g node offset size buffer m e = cc

-- Where offset and size do not wrap around and the buffer is apart from the bytes of the file,
-- `initrd_read` returns 0 and changes nothing for an offset behind the file's end, and else copies
-- what there is of the `size` bytes from the offset on, returns how many they are, and changes no
-- other byte.
pub initrd_read_lem :
    (g : Initrd) (node offset size buffer : ℕ) (m : Memory)
    → offset + size < 2 ^ 32
    → (buffer + size ≤ file_byte g m node offset) ⊎ (file_byte g m node offset + size ≤ buffer)
    → ((file_length g m node < offset) → initrd_read g node offset size buffer m ≡ (0, m))
      × ((offset ≤ file_length g m node)
          → ((initrd_read g node offset size buffer m).0 ≡ min size (file_length g m node - offset))
            × ((b : ℕ)
                → (initrd_read g node offset size buffer m).1 b ≡ (
                    if leb buffer b && ltb b (buffer + min size (file_length g m node - offset))
                    then load8 m (b - buffer + file_byte g m node offset)
                    else m b)))
unfolding read_size
initrd_read_lem g node offset size buffer m word apart = (
  λ behind.
      let none_left : read_size (file_length g m node) offset size ≡ none = ground arith in
      initrd_read-behind g node offset size buffer m none_left,
  λ within.
      let n = min size (file_length g m node - offset) in
      let takes : read_size (file_length g m node) offset size ≡ some n = ground arith in
      let run = initrd_read-runs g node offset size buffer m n takes in
      (
        ap (λ (p : ℕ × Memory). p.0) run,
        λ b.
            ap (λ (p : ℕ × Memory). p.1 b) run
            ∙ memcpy_lem n m buffer (file_byte g m node offset) b (omega arith),
      ),
)
