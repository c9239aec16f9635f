-- ===== src/Initrd/Files.antt =====
-- About a round of the loop of `initialize_initrd` in IcarusOS/initrd.c.
use cmsi.Base.{ℕ, ◌+◌, ◌-◌, ◌^◌, ◌≤◌, ◌<◌, ◌≡◌, ◌⊎◌, inl, inr, sym, ap, ◌∙◌, arith}
use cmsi.Base.{◌==◌, Bool-cases}
use cmsi.Base.Words.{add32}
use cmsi.Base.Outcome.{ok}
use cmsi.Memory.{Memory, load8, store32}
use cmsi.Memory.Access.{
  load32-store32_self, load32-store32_ne, store32_outside, load32_agree, load8_agree,
}
use cmsi.Kernel.{Kernel}
use cmsi.Strings.Laws.{IsString, copied, strcpy_lem}
use cmsi.Initrd.{Initrd, file_header, root_node, get_offset}
use cmsi.Initrd.Initialize.{file_node}
use cmsi.Initrd.Nodes.{FileNode, filled, filled_outside, filled-words, file_node-run}

pub agree-IsString :
    (m m' : Memory) (a n : ℕ)
    → ((b : ℕ) → a ≤ b → b < a + n + 1 → m' b ≡ m b)
    → IsString m a n
    → IsString m' a n
agree-IsString m m' a n same s = record {
  text = λ i l e.
      s.text i l (sym (load8_agree m' m (a + i) (same (a + i) (omega arith) (omega arith))) ∙ e);
  ends = load8_agree m' m (a + n) (same (a + n) (omega arith) (omega arith)) ∙ s.ends;
}

-- A node depends on its own bytes and those of its header.
pub agree-FileNode :
    (m₀ m₁ m m' : Memory) (g : Initrd) (location i n : ℕ)
    → n < 64
    → ((b : ℕ) → file_header g i ≤ b → b < file_header g i + 76 → m₁ b ≡ m₀ b)
    → ((b : ℕ) → file_header g i ≤ b → b < file_header g i + 76 → m' b ≡ m b)
    → ((b : ℕ) → root_node g i ≤ b → b < root_node g i + 184 → m' b ≡ m b)
    → FileNode m₁ m g location i n
    → FileNode m₀ m' g location i n
agree-FileNode m₀ m₁ m m' g location i n short before header node f =
    let h = file_header g i in
    let r = root_node g i in
    record {
      name = λ c l.
          load8_agree m' m (r + c) (node (r + c) (omega arith) (omega arith))
          ∙ f.name c l
          ∙ load8_agree m₁ m₀ (h + 1 + c) (before (h + 1 + c) (omega arith) (omega arith));
      length =
          load32_agree m' m (r + 148) (λ b l u. node b (omega arith) (omega arith))
          ∙ f.length
          ∙ load32_agree m₁ m₀ (h + 72) (λ b l u. before b (omega arith) (omega arith));
      inode = load32_agree m' m (r + 144) (λ b l u. node b (omega arith) (omega arith)) ∙ f.inode;
      flags = load32_agree m' m (r + 140) (λ b l u. node b (omega arith) (omega arith)) ∙ f.flags;
      read = load32_agree m' m (r + 156) (λ b l u. node b (omega arith) (omega arith)) ∙ f.read;
      offset =
          load32_agree m' m (h + 68) (λ b l u. header b (omega arith) (omega arith))
          ∙ f.offset
          ∙ ap (λ x. add32 x location)
              (load32_agree m₁ m₀ (h + 68) (λ b l u. before b (omega arith) (omega arith)));
    }

copied-inside : (m : Memory) (r src n c : ℕ) → c < n → copied m r src n (r + c) ≡ load8 m (src + c)
copied-inside m r src n c u =
    let place : r + c - r + src ≡ src + c = omega arith in ground (arith, ap (load8 m) place)

low_byte : (m : Memory) (a : ℕ) → m a ≡ 0 → load8 m a ≡ 0
unfolding load8
low_byte m a e = ground (arith, e)

byte_of : (m m₁ : Memory) (a b : ℕ) → m a ≡ load8 m₁ b → load8 m a ≡ load8 m₁ b
unfolding load8
byte_of m m₁ a b e = ground (arith, e)

-- A round of the loop.
pub file_node_lem :
    (g : Initrd) (fuel location i n : ℕ) (k : Kernel)
    → IsString k.memory (file_header g i + 1) n
    → n < 64
    → n < fuel
    → i < 2 ^ 32
    → g.read_address < 2 ^ 32
    → (file_header g i + 76 ≤ root_node g i) ⊎ (root_node g i + 184 ≤ file_header g i)
    → (m' : Memory) × (file_node g fuel location i k ≡ ok (tt, record k { memory = m' }))
      × FileNode k.memory m' g location i n
      × ((b : ℕ)
          → (b < file_header g i) ⊎ (file_header g i + 76 ≤ b)
          → (b < root_node g i) ⊎ (root_node g i + 184 ≤ b)
          → m' b ≡ k.memory b)
file_node_lem g fuel location i n k s short enough word read_word apart =
    let h = file_header g i in
    let r = root_node g i in
    let moved = add32 (get_offset k.memory h) location in
    let m₁ = store32 k.memory (h + 68) moved in
    let name_same : (b : ℕ) → h + 1 ≤ b → b < h + 1 + n + 1 → m₁ b ≡ k.memory b =
      λ b l u. store32_outside k.memory (h + 68) moved b (omega arith) in
    let (m₂, ran, bytes) =
      strcpy_lem fuel m₁ r (h + 1) n (agree-IsString k.memory m₁ (h + 1) n name_same s) enough
        (omega arith) in
    let away : (b : ℕ) → (b < r) ⊎ (r + n + 1 ≤ b) → m₂ b ≡ m₁ b = λ b o. ground (arith, bytes b) in
    let (length, inode, flags, read) = filled-words m₂ r h i g.read_address word read_word apart in
    let kept : (b : ℕ) → (b < r + 128) ⊎ (r + 184 ≤ b) → filled m₂ r h i g.read_address b ≡ m₂ b =
      filled_outside m₂ r h i g.read_address in
    (
      filled m₂ r h i g.read_address,
      file_node-run g fuel location i k m₂ ran,
      record {
        name = named m₁ m₂ (filled m₂ r h i g.read_address) name_same bytes kept;
        length =
            length
            ∙ load32_agree m₂ m₁ (h + 72) (λ b l u. away b (omega arith))
            ∙ load32-store32_ne k.memory (h + 68) moved (h + 72) (omega arith);
        inode = inode;
        flags = flags;
        read = read;
        offset =
            load32_agree (filled m₂ r h i g.read_address) m₂ (h + 68)
              (λ b l u. kept b (omega arith))
            ∙ load32_agree m₂ m₁ (h + 68) (λ b l u. away b (omega arith))
            ∙ load32-store32_self k.memory (h + 68) moved (omega arith);
      },
      λ b o p.
          kept b (omega arith)
          ∙ away b (omega arith)
          ∙ store32_outside k.memory (h + 68) moved b (omega arith),
    )
  where
    -- The copied name.
    named :
        (m₁ m₂ m' : Memory)
        → ((b : ℕ) → file_header g i + 1 ≤ b → b < file_header g i + 1 + n + 1 → m₁ b ≡ k.memory b)
        → ((b : ℕ) → m₂ b ≡ copied m₁ (root_node g i) (file_header g i + 1) n b)
        → ((b : ℕ) → (b < root_node g i + 128) ⊎ (root_node g i + 184 ≤ b) → m' b ≡ m₂ b)
        → (c : ℕ) → c ≤ n
        → load8 m' (root_node g i + c) ≡ load8 k.memory (file_header g i + 1 + c)
    named m₁ m₂ m' same bytes kept c l =
        let r = root_node g i in
        let src = file_header g i + 1 in
        let source : load8 m₁ (src + c) ≡ load8 k.memory (src + c) =
          load8_agree m₁ k.memory (src + c) (same (src + c) (omega arith) (omega arith)) in
        load8_agree m' m₂ (r + c) (kept (r + c) (omega arith)) ∙ elim (Bool-cases (c == n)) [
          | inl end ↦
              let zero_there : m₂ (r + c) ≡ 0 = ground (arith, bytes (r + c)) in
              let last : load8 k.memory (src + c) ≡ 0 =
                ap (λ x. load8 k.memory (src + x)) (ground arith) ∙ s.ends in
              low_byte m₂ (r + c) zero_there ∙ sym last
          | inr within ↦
              let there : m₂ (r + c) ≡ load8 m₁ (src + c) =
                bytes (r + c) ∙ copied-inside m₁ r src n c (ground arith) in
              byte_of m₂ m₁ (r + c) (src + c) there ∙ source
        ]
