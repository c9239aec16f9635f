-- ===== src/Initrd.antt =====
-- IcarusOS/initrd.c and initrd.h: the initial ramdisk. A file header takes 76 bytes: `magic` at 0, `name`
-- at 1, `offset` at 68 and `length` at 72. A node of fs.h takes 184: `name` at 0, then words from 128 on.
-- The text literals and the callbacks of the nodes are at addresses of their own.
pub mod Reading
pub mod Finding
pub mod Initialize
pub mod Nodes
pub mod Files
pub mod Populated
mod FileTests
mod Tests
use cmsi.Base.{ℕ, zero, suc, ◌+◌, ◌*◌, ◌^◌, Bool, ◌&&◌, ltb, leb, ◌==◌, if◌then◌else◌}
use cmsi.Base.Words.{add32, sub32, mul32}
use cmsi.Base.Outcome.{Outcome, ok, ◌>>=◌}
use cmsi.Memory.{Memory, load32, store32, store8, memcpy}
use cmsi.Strings.{strcmp, strcpy, strlen}
use cmsi.Fs.{fs_directory}
use cmsi.Base.{Option}
use cmsi.Base.{none}
use cmsi.Base.{some}

-- The globals of initrd.c, and the addresses of its literals "initrd" and "dev".
pub record Initrd : Type 0 where
  pub initrd_header : ℕ
  pub file_headers : ℕ
  pub initrd_root : ℕ
  pub initrd_dev : ℕ
  pub root_nodes : ℕ
  pub nroot_nodes : ℕ
  pub dirent : ℕ
  pub text_initrd : ℕ
  pub text_dev : ℕ
  pub read_address : ℕ
  pub readdir_address : ℕ
  pub finddir_address : ℕ

abbrev pub sizeof_file_header : ℕ
sizeof_file_header = 76

abbrev pub sizeof_fs_node : ℕ
sizeof_fs_node = 184

abbrev pub fs_file : ℕ
fs_file = 0x01

-- file_headers[i], and its fields
abbrev pub file_header : Initrd → ℕ → ℕ
file_header g i = g.file_headers + sizeof_file_header * i

abbrev pub get_offset : Memory → ℕ → ℕ
get_offset m h = load32 m (h + 68)

abbrev pub get_length : Memory → ℕ → ℕ
get_length m h = load32 m (h + 72)

-- root_nodes[i]
abbrev pub root_node : Initrd → ℕ → ℕ
root_node g i = g.root_nodes + sizeof_fs_node * i

-- The inode of a node.
abbrev pub get_inode : Memory → ℕ → ℕ
get_inode m node = load32 m (node + 144)

-- How many bytes `initrd_read` takes: `none` where the offset is behind the file.
unfoldable pub read_size : (length offset size : ℕ) → Option ℕ
read_size length offset size =
    if ltb length offset
    then none
    else some (if ltb length (add32 offset size) then sub32 length offset else size)

unfoldable pub initrd_read : Initrd → (node offset size buffer : ℕ) → Memory → ℕ × Memory
initrd_read g node offset size buffer m =
    let header = file_header g (get_inode m node) in
    elim (read_size (get_length m header) offset size) [
      | none ↦ (0, m)
      | some n ↦ (n, memcpy m buffer (add32 (get_offset m header) offset) n)
    ]

-- `initrd_readdir`, with fuel for its strings: it fills in the entry, a name and an inode at 128, and
-- returns its address.
unfoldable pub initrd_readdir : Initrd → (fuel node index : ℕ) → Memory → Outcome (ℕ × Memory)
initrd_readdir g fuel node index m =
    if (node == g.initrd_root) && (index == 0)
    then (do
      m ← strcpy fuel m g.dirent g.text_dev
      ok (g.dirent, store32 (store8 m (g.dirent + 3) 0) (g.dirent + 128) 0))
    else if leb g.nroot_nodes (sub32 index 1)
    then ok (0, m)
    else do
      let name = root_node g (sub32 index 1)
      m ← strcpy fuel m g.dirent name
      end ← strlen fuel m name
      let m = store8 m (g.dirent + end) 0
      ok (g.dirent, store32 m (g.dirent + 128) (get_inode m name))

-- The loop of `initrd_finddir`, with the rounds left.
unfoldable pub find_node : Initrd → (name : ℕ) → (rounds i : ℕ) → Memory → ℕ
find_node g name zero i m = 0
find_node g name (suc n) i m =
    let rest = find_node g name n (i + 1) m in
    if strcmp m name (root_node g i) == 0 then root_node g i else rest

unfoldable pub initrd_finddir : Initrd → (node name : ℕ) → Memory → ℕ
initrd_finddir g node name m =
    if (node == g.initrd_root) && (strcmp m name g.text_dev == 0)
    then g.initrd_dev
    else find_node g name g.nroot_nodes 0 m
