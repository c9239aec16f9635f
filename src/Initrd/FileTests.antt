-- ===== src/Initrd/FileTests.antt =====
-- The theorem about the nodes of the files at a ramdisk of one file.
use cmsi.Base.{ℕ, zero, suc, ◌+◌, ◌<◌, ◌≤◌, ◌≡◌, ◌≢◌, ◌⊎◌, refl, arith, none, ◌==◌, if◌then◌else◌}
use cmsi.Base.Outcome.{ok}
use cmsi.Memory.{Memory, load32, load8}
use cmsi.Kernel.{Kernel}
use cmsi.Initrd.{Initrd}
use cmsi.Initrd.Initialize.{file_nodes}
use cmsi.Initrd.Nodes.{FileNode}
use cmsi.Initrd.Populated.{IsLaidOut, IsNamed, file_nodes_lem}

-- At 0x1000 the number of files, and a file "a" of 5 bytes at 80.
abbrev disk : Kernel
disk = record {
  memory = λ a.
      if a == 0x1000
      then 1
      else if a == 0x1005
      then 97
      else if a == 0x1048
      then 80
      else if a == 0x104c
      then 5
      else 0;
  placement_address = 0;
  kheap = none;
  kernel_directory = 0;
  current_directory = 0;
  frames = 0;
  nframes = 0;
  current_task = 0;
  ready_queue = 0;
  next_pid = 1;
  initial_esp = 0;
}

abbrev places : Initrd
places = record {
  initrd_header = 0x1000;
  file_headers = 0x1004;
  initrd_root = 0x3000;
  initrd_dev = 0x3100;
  root_nodes = 0x2000;
  nroot_nodes = 1;
  dirent = 0x4000;
  text_initrd = 0x5000;
  text_dev = 0x5010;
  read_address = 0x6000;
  readdir_address = 0x6100;
  finddir_address = 0x6200;
}

places-IsLaidOut : IsLaidOut places 1
places-IsLaidOut = record { in_front = omega arith; apart = omega arith; read_word = omega arith }

one_file : load32 disk.memory 0x1000 ≡ 1
unfolding load32 load8
one_file = refl

name_text : (i : ℕ) → i < 1 → load8 disk.memory (0x1005 + i) ≢ 0
unfolding load8
name_text zero u e = absurd (omega arith)
name_text (suc i) u e = absurd (omega arith)

disk-IsNamed : (j : ℕ) → j < 1 → IsNamed disk.memory places j 1
unfolding load8
disk-IsNamed zero u = record {
  string = record { text = name_text; ends = refl };
  short = omega arith;
}
disk-IsNamed (suc j) u = absurd (omega arith)

file_nodes_example :
    (m' : Memory) × (file_nodes places 2 2 0x1000 0 disk ≡ ok (tt, record disk { memory = m' }))
    × ((j : ℕ) → j < 1 → FileNode disk.memory m' places 0x1000 j 1)
    × ((b : ℕ) → (b < 0x1004) ⊎ (0x1050 ≤ b) → (b < 0x2000) ⊎ (0x20b8 ≤ b) → m' b ≡ disk.memory b)
file_nodes_example =
    file_nodes_lem places 2 0x1000 1 (λ j. 1) places-IsLaidOut (λ j u. omega arith) 2 disk
      (omega arith) one_file disk-IsNamed
