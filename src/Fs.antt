-- ===== src/Fs.antt =====
-- IcarusOS/fs.c: the dispatch of file operations through a node's callbacks. A callback is that of the
-- node's file system, applied to the node, over its state `S`; `none` is a null pointer, a call of
-- which stops the run. A pointer result is an address.
use cmsi.Base.{ℕ, ◌%◌, ◌^◌, Bool, true, false, ◌&&◌, Option, none, some, ◌==◌, if◌then◌else◌}
use cmsi.Base.Outcome.{Outcome, ok, stop, null_pointer}

abbrev pub fs_directory : ℕ
fs_directory = 0x02

-- The fields of fs_node_t that the dispatch uses.
pub record FsNode (S : Type 0) : Type 0 where
  pub flags : ℕ
  pub read : Option ((offset size buffer : ℕ) → S → Outcome (ℕ × S))
  pub write : Option ((offset size buffer : ℕ) → S → Outcome (ℕ × S))
  pub open_node : Option (S → Outcome (Unit {0} × S))
  pub close : Option (S → Outcome (Unit {0} × S))
  pub readdir : Option ((index : ℕ) → S → Outcome (ℕ × S))
  pub finddir : Option ((name : ℕ) → S → Outcome (ℕ × S))

-- Is a pointer not null?
abbrev is_some : {A : Type 0} → Option A → Bool
is_some none = false
is_some (some a) = true

module _ {S : Type 0} where
  -- A call through a pointer.
  abbrev call : {A B : Type 0} → Option (A → S → Outcome (B × S)) → A → S → Outcome (B × S)
  call none a s = stop null_pointer
  call (some f) a s = f a s

  unfoldable pub read_fs : FsNode S → (offset size buffer : ℕ) → S → Outcome (ℕ × S)
  read_fs node offset size buffer s = elim (node.read) [
    | none ↦ ok (0, s)
    | some f ↦ f offset size buffer s
  ]

  unfoldable pub write_fs : FsNode S → (offset size buffer : ℕ) → S → Outcome (ℕ × S)
  write_fs node offset size buffer s = elim (node.write) [
    | none ↦ ok (0, s)
    | some f ↦ f offset size buffer s
  ]

  -- The test is of `write`, the call of `open`.
  unfoldable pub open_fs : FsNode S → S → Outcome (Unit {0} × S)
  open_fs node s =
      if is_some node.write
      then elim (node.open_node) [ none ↦ stop null_pointer | some f ↦ f s ]
      else ok (tt, s)

  unfoldable pub close_fs : FsNode S → S → Outcome (Unit {0} × S)
  close_fs node s = elim (node.close) [ none ↦ ok (tt, s) | some f ↦ f s ]

  unfoldable pub readdir_fs : FsNode S → (index : ℕ) → S → Outcome (ℕ × S)
  readdir_fs node index s =
      if (node.flags % 2 ^ 3 == fs_directory) && is_some node.readdir
      then call node.readdir index s
      else ok (0, s)

  -- The test is of `readdir`, the call of `finddir`.
  unfoldable pub finddir_fs : FsNode S → (name : ℕ) → S → Outcome (ℕ × S)
  finddir_fs node name s =
      if (node.flags % 2 ^ 3 == fs_directory) && is_some node.readdir
      then call node.finddir name s
      else ok (0, s)
