-- ===== src/Initrd/Initialize.antt =====
-- `initialize_initrd`: the nodes of the root directory, of /dev and of the files.
use cmsi.Base.{ℕ, zero, suc, ◌+◌, ltb, if◌then◌else◌}
use cmsi.Base.Words.{add32, mul32}
use cmsi.Base.Outcome.{out_of_fuel}
use cmsi.Kernel.{Cmd, pure, halt, ◌>>=◌, ◌>>◌, get, get32, put32, lift, modify_memory}
use cmsi.Strings.{strcpy}
use cmsi.Fs.{fs_directory}
use cmsi.Initrd.{Initrd, sizeof_fs_node, fs_file, file_header, root_node}

-- strcpy(dest, source)
unfoldable pub copy_text : (fuel dest source : ℕ) → Cmd (Unit {0})
copy_text fuel dest source = do
  k ← get
  m ← lift (strcpy fuel k.memory dest source)
  modify_memory (λ _. m)

-- A directory's node.
unfoldable pub directory_node : (kmalloc : ℕ → Cmd ℕ) → Initrd → (fuel text : ℕ) → Cmd ℕ
unfolding copy_text
directory_node kmalloc g fuel text = do
  node ← kmalloc sizeof_fs_node
  copy_text fuel node text
  put32 (node + 148) 0
  put32 (node + 144) 0
  put32 (node + 136) 0
  put32 (node + 132) 0
  put32 (node + 128) 0
  put32 (node + 140) fs_directory
  put32 (node + 156) 0
  put32 (node + 160) 0
  put32 (node + 164) 0
  put32 (node + 168) 0
  put32 (node + 172) g.readdir_address
  put32 (node + 176) g.finddir_address
  put32 (node + 180) 0
  put32 (node + 152) 0
  pure node

-- The body of the loop over the files: the header's offset becomes an address, and the node is filled
-- in, but for its `ptr`.
unfoldable pub file_node : Initrd → (fuel location i : ℕ) → Cmd (Unit {0})
unfolding copy_text
file_node g fuel location i = do
  let header = file_header g i
  let node = root_node g i
  offset ← get32 (header + 68)
  put32 (header + 68) (add32 offset location)
  copy_text fuel node (header + 1)
  put32 (node + 136) 0
  put32 (node + 132) 0
  put32 (node + 128) 0
  length ← get32 (header + 72)
  put32 (node + 148) length
  put32 (node + 144) i
  put32 (node + 140) fs_file
  put32 (node + 156) g.read_address
  put32 (node + 160) 0
  put32 (node + 172) 0
  put32 (node + 176) 0
  put32 (node + 164) 0
  put32 (node + 168) 0
  put32 (node + 152) 0

-- The loop, with fuel for its rounds and for each string.
unfoldable pub file_nodes : Initrd → (rounds fuel location i : ℕ) → Cmd (Unit {0})
file_nodes g zero fuel location i = halt out_of_fuel
file_nodes g (suc n) fuel location i = do
  nfiles ← get32 g.initrd_header
  if ltb i nfiles
      then (do file_node g fuel location i; file_nodes g n fuel location (add32 i 1))
      else pure tt

-- `initialize_initrd`: the globals behind it. `g` has the addresses that the linker gives.
unfoldable pub initialize_initrd :
    (kmalloc : ℕ → Cmd ℕ) → Initrd → (rounds fuel location : ℕ) → Cmd Initrd
initialize_initrd kmalloc g rounds fuel location = do
  let g = record g { initrd_header = location; file_headers = add32 location 4 }
  root ← directory_node kmalloc g fuel g.text_initrd
  dev ← directory_node kmalloc g fuel g.text_dev
  nfiles ← get32 g.initrd_header
  nodes ← kmalloc (mul32 sizeof_fs_node nfiles)
  nfiles ← get32 g.initrd_header
  let g = record g {
    initrd_root = root;
    initrd_dev = dev;
    root_nodes = nodes;
    nroot_nodes = nfiles;
  }
  file_nodes g rounds fuel location 0
  pure g
