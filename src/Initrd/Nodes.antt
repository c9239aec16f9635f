-- ===== src/Initrd/Nodes.antt =====
-- About the loop of `initialize_initrd` in IcarusOS/initrd.c that makes the nodes of the files.
use cmsi.Base.{ℕ, ◌+◌, ◌^◌, ◌≤◌, ◌<◌, ◌≡◌, ◌⊎◌, ◌∙◌, arith}
use cmsi.Base.Words.{add32}
use cmsi.Base.Outcome.{ok}
use cmsi.Memory.{Memory, load8, load32, store32}
use cmsi.Memory.Access.{load32-lt, load32-store32_self, load32-store32_ne, store32_outside}
use cmsi.Kernel.{Kernel}
use cmsi.Strings.{strcpy}
use cmsi.Initrd.{Initrd, file_header, root_node, get_offset, get_length, get_inode, fs_file}
use cmsi.Initrd.Initialize.{file_node, copy_text}

-- The node of file `i`, in `m'`, from the file's header in `m`, whose name has `n` characters.
pub record FileNode (m m' : Memory) (g : Initrd) (location i n : ℕ) : Type 0 where
  pub name : (c : ℕ) → c ≤ n → load8 m' (root_node g i + c) ≡ load8 m (file_header g i + 1 + c)
  pub length : load32 m' (root_node g i + 148) ≡ get_length m (file_header g i)
  pub inode : get_inode m' (root_node g i) ≡ i
  pub flags : load32 m' (root_node g i + 140) ≡ fs_file
  pub read : load32 m' (root_node g i + 156) ≡ g.read_address
  pub offset : get_offset m' (file_header g i) ≡ add32 (get_offset m (file_header g i)) location

-- The memory when the words of the node are written.
unfoldable pub filled : Memory → (node header i read : ℕ) → Memory
filled m node header i read =
    let ids = store32 (store32 (store32 m (node + 136) 0) (node + 132) 0) (node + 128) 0 in
    let long = store32 ids (node + 148) (load32 ids (header + 72)) in
    let typed =
      store32 (store32 (store32 long (node + 144) i) (node + 140) fs_file) (node + 156) read in
    store32
      (store32
        (store32 (store32 (store32 (store32 typed (node + 160) 0) (node + 172) 0) (node + 176) 0)
          (node + 164) 0)
        (node + 168) 0)
      (node + 152) 0

pub filled_outside :
    (m : Memory) (node header i read b : ℕ)
    → (b < node + 128) ⊎ (node + 184 ≤ b)
    → filled m node header i read b ≡ m b
unfolding filled
filled_outside m node header i read b o =
    store32_outside _ (node + 152) 0 b (omega arith)
    ∙ store32_outside _ (node + 168) 0 b (omega arith)
    ∙ store32_outside _ (node + 164) 0 b (omega arith)
    ∙ store32_outside _ (node + 176) 0 b (omega arith)
    ∙ store32_outside _ (node + 172) 0 b (omega arith)
    ∙ store32_outside _ (node + 160) 0 b (omega arith)
    ∙ store32_outside _ (node + 156) read b (omega arith)
    ∙ store32_outside _ (node + 140) fs_file b (omega arith)
    ∙ store32_outside _ (node + 144) i b (omega arith)
    ∙ store32_outside _ (node + 148) _ b (omega arith)
    ∙ store32_outside _ (node + 128) 0 b (omega arith)
    ∙ store32_outside _ (node + 132) 0 b (omega arith)
    ∙ store32_outside m (node + 136) 0 b (omega arith)

-- The zeros that are written last leave the words from 140 up to 152, and the one at 156, alone.
zeros-load32 :
    (m : Memory) (node a : ℕ)
    → (node + 140 ≤ a) × (a + 4 ≤ node + 152) ⊎ (a ≡ node + 156)
    → load32
        (store32
          (store32
            (store32
              (store32 (store32 (store32 m (node + 160) 0) (node + 172) 0) (node + 176) 0)
              (node + 164)
              0)
            (node + 168)
            0)
          (node + 152)
          0)
        a
      ≡ load32 m a
zeros-load32 m node a h =
    load32-store32_ne _ (node + 152) 0 a (omega arith)
    ∙ load32-store32_ne _ (node + 168) 0 a (omega arith)
    ∙ load32-store32_ne _ (node + 164) 0 a (omega arith)
    ∙ load32-store32_ne _ (node + 176) 0 a (omega arith)
    ∙ load32-store32_ne _ (node + 172) 0 a (omega arith)
    ∙ load32-store32_ne m (node + 160) 0 a (omega arith)

pub filled-words :
    (m : Memory) (node header i read : ℕ)
    → i < 2 ^ 32
    → read < 2 ^ 32
    → (header + 76 ≤ node) ⊎ (node + 184 ≤ header)
    → (load32 (filled m node header i read) (node + 148) ≡ load32 m (header + 72))
      × (load32 (filled m node header i read) (node + 144) ≡ i)
      × (load32 (filled m node header i read) (node + 140) ≡ fs_file)
      × (load32 (filled m node header i read) (node + 156) ≡ read)
unfolding filled
filled-words m node header i read word read_word apart =
    let ids = store32 (store32 (store32 m (node + 136) 0) (node + 132) 0) (node + 128) 0 in
    let same : load32 ids (header + 72) ≡ load32 m (header + 72) =
      load32-store32_ne _ (node + 128) 0 (header + 72) (omega arith)
      ∙ load32-store32_ne _ (node + 132) 0 (header + 72) (omega arith)
      ∙ load32-store32_ne m (node + 136) 0 (header + 72) (omega arith) in
    (
      zeros-load32 _ node (node + 148) (omega arith)
          ∙ load32-store32_ne _ (node + 156) read (node + 148) (omega arith)
          ∙ load32-store32_ne _ (node + 140) fs_file (node + 148) (omega arith)
          ∙ load32-store32_ne _ (node + 144) i (node + 148) (omega arith)
          ∙ load32-store32_self ids (node + 148) (load32 ids (header + 72))
              (load32-lt ids (header + 72))
          ∙ same,
      zeros-load32 _ node (node + 144) (omega arith)
          ∙ load32-store32_ne _ (node + 156) read (node + 144) (omega arith)
          ∙ load32-store32_ne _ (node + 140) fs_file (node + 144) (omega arith)
          ∙ load32-store32_self _ (node + 144) i word,
      zeros-load32 _ node (node + 140) (omega arith)
          ∙ load32-store32_ne _ (node + 156) read (node + 140) (omega arith)
          ∙ load32-store32_self _ (node + 140) fs_file (omega arith),
      zeros-load32 _ node (node + 156) (omega arith)
          ∙ load32-store32_self _ (node + 156) read read_word,
    )

pub file_node-run :
    (g : Initrd) (fuel location i : ℕ) (k : Kernel) (m : Memory)
    → strcpy fuel
        (store32 k.memory
          (file_header g i + 68)
          (add32 (get_offset k.memory (file_header g i)) location))
        (root_node g i)
        (file_header g i + 1)
      ≡ ok m
    → file_node g fuel location i k
      ≡ ok (tt, record k { memory = filled m (root_node g i) (file_header g i) i g.read_address })
unfolding file_node filled copy_text
file_node-run g fuel location i k m ran = simp ran
