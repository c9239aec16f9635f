-- ===== src/Initrd/Tests.antt =====
-- The theorems about the ramdisk at a ramdisk of one file.
use cmsi.Base.{ℕ, ◌+◌, ◌-◌, ◌<◌, ◌≤◌, ◌≡◌, ◌≢◌, ◌⊎◌, arith, ◌==◌, ◌&&◌, if◌then◌else◌, ltb, leb}
use cmsi.Memory.{Memory, load8, load32}
use cmsi.Initrd.{Initrd, initrd_read, initrd_finddir}
use cmsi.Initrd.Reading.{initrd_read_lem}
use cmsi.Initrd.Finding.{SameStart, OtherStart, FoundNode, initrd_finddir_lem}
use cmsi.Base.{inr}

-- One file header at 0x1004 and its node at 0x3000; the root directory is at 0x4000.
abbrev some_disk : Initrd
some_disk = record {
  initrd_header = 0x1000;
  file_headers = 0x1004;
  initrd_root = 0x4000;
  initrd_dev = 0x5000;
  root_nodes = 0x3000;
  nroot_nodes = 1;
  dirent = 0x6000;
  text_initrd = 0x7000;
  text_dev = 0x7010;
  read_address = 0x8000;
  readdir_address = 0x8010;
  finddir_address = 0x8020;
}

-- The file's 5 bytes, 0x41 each, are at 0x2000, and its name is "a"; "dev" is at 0x7010.
abbrev some_memory : Memory
some_memory a =
    if a == 0x1049
    then 0x20
    else if a == 0x104c
    then 5
    else if leb 0x2000 a && ltb a 0x2005
    then 0x41
    else if a == 0x3000
    then 0x61
    else if a == 0x7010
    then 0x64
    else if a == 0x7020
    then 0x61
    else 0

initrd_read_example :
    ((5 < 2) → initrd_read some_disk 0x3000 2 10 0x9000 some_memory ≡ (0, some_memory))
    × ((2 ≤ 5)
        → ((initrd_read some_disk 0x3000 2 10 0x9000 some_memory).0 ≡ 3)
          × ((b : ℕ)
              → (initrd_read some_disk 0x3000 2 10 0x9000 some_memory).1 b ≡ (
                  if leb 0x9000 b && ltb b 0x9003
                  then load8 some_memory (b - 0x9000 + 0x2002)
                  else some_memory b)))
unfolding load32 load8
initrd_read_example =
    initrd_read_lem some_disk 0x3000 2 10 0x9000 some_memory (omega arith) (inr (omega arith))

initrd_finddir_example :
    ((◌≡◌ {A = ℕ} 0x4000 0x4000)
      → SameStart some_memory 0x7020 0x7010
      → initrd_finddir some_disk 0x4000 0x7020 some_memory ≡ 0x5000)
    × ((◌≢◌ {A = ℕ} 0x4000 0x4000) ⊎ OtherStart some_memory 0x7020 0x7010
        → FoundNode some_disk some_memory 0x7020 0 1
            (initrd_finddir some_disk 0x4000 0x7020 some_memory))
initrd_finddir_example = initrd_finddir_lem some_disk 0x4000 0x7020 some_memory
