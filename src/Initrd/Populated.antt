-- ===== src/Initrd/Populated.antt =====
-- What the loop of `initialize_initrd` in IcarusOS/initrd.c makes of the files.
use cmsi.Base.{ℕ, zero, suc, ◌+◌, ◌*◌, ◌^◌, ◌≤◌, ◌<◌, ◌≡◌, ◌⊎◌, inl, inr, refl, sym, ◌∙◌, arith}
use cmsi.Base.{true, false, ltb, ◌==◌, Bool-cases}
use mathlib.Core.Path.{subst}
use cmsi.Base.Words.{add32}
use cmsi.Base.Outcome.{ok}
use cmsi.Memory.{Memory, load32}
use cmsi.Memory.Access.{load32-lt, load32_agree}
use cmsi.Kernel.{Kernel}
use cmsi.Strings.Laws.{IsString}
use cmsi.Initrd.{Initrd, file_header, root_node}
use cmsi.Initrd.Initialize.{file_node, file_nodes}
use cmsi.Initrd.Nodes.{FileNode}
use cmsi.Initrd.Files.{agree-IsString, agree-FileNode, file_node_lem}

-- The ramdisk's header stands in front of those of its files, and the nodes lie apart from both.
pub record IsLaidOut (g : Initrd) (nfiles : ℕ) : Type 0 where
  pub in_front : g.initrd_header + 4 ≤ g.file_headers
  pub apart :
      (g.root_nodes + 184 * nfiles ≤ g.initrd_header)
      ⊎ (g.file_headers + 76 * nfiles ≤ g.root_nodes)
  pub read_word : g.read_address < 2 ^ 32

-- File `i` has a name of `n` characters, which leave room for the 0 behind them.
pub record IsNamed (m : Memory) (g : Initrd) (i n : ℕ) : Type 0 where
  pub string : IsString m (file_header g i + 1) n
  pub short : n < 64

file_nodes-step :
    (g : Initrd) (rounds fuel location i nfiles : ℕ) (k : Kernel) (m₁ : Memory)
    → load32 k.memory g.initrd_header ≡ nfiles
    → i < nfiles
    → file_node g fuel location i k ≡ ok (tt, record k { memory = m₁ })
    → file_nodes g (suc rounds) fuel location i k
      ≡ file_nodes g rounds fuel location (add32 i 1) (record k { memory = m₁ })
unfolding file_nodes
file_nodes-step g rounds fuel location i nfiles k m₁ counted below ran =
    let more : ltb i nfiles ≡ true = ground arith in simp (counted, more, ran)

file_nodes-end :
    (g : Initrd) (rounds fuel location i nfiles : ℕ) (k : Kernel)
    → load32 k.memory g.initrd_header ≡ nfiles
    → nfiles ≤ i
    → file_nodes g (suc rounds) fuel location i k ≡ ok (tt, k)
unfolding file_nodes
file_nodes-end g rounds fuel location i nfiles k counted above =
    let done : ltb i nfiles ≡ false = ground arith in simp (counted, done)

module _ (g : Initrd) (fuel location nfiles : ℕ) (len : ℕ → ℕ) (laid : IsLaidOut g nfiles)
    (short : (j : ℕ) → j < nfiles → len j < fuel) where
  -- The loop from file `i` on.
  file_nodes_from :
      (rounds r i : ℕ) (k : Kernel)
      → r < rounds
      → r + i ≡ nfiles
      → load32 k.memory g.initrd_header ≡ nfiles
      → ((j : ℕ) → i ≤ j → j < nfiles → IsNamed k.memory g j (len j))
      → (m' : Memory) × (file_nodes g rounds fuel location i k ≡ ok (tt, record k { memory = m' }))
        × ((j : ℕ) → i ≤ j → j < nfiles → FileNode k.memory m' g location j (len j))
        × ((b : ℕ)
            → (b < file_header g i) ⊎ (g.file_headers + 76 * nfiles ≤ b)
            → (b < root_node g i) ⊎ (g.root_nodes + 184 * nfiles ≤ b)
            → m' b ≡ k.memory b)
  file_nodes_from zero r i k enough left counted names = absurd (omega arith)
  file_nodes_from (suc f) zero i k enough left counted names = (
    k.memory,
    file_nodes-end g f fuel location i nfiles k counted (omega arith),
    (λ j l u. absurd (omega arith)),
    (λ b o p. refl),
  )
  file_nodes_from (suc f) (suc r) i k enough left counted names =
      let word : nfiles < 2 ^ 32 = omega (arith, load32-lt k.memory g.initrd_header, counted) in
      let name = names i (omega arith) (omega arith) in
      let (m₁, ran, node, outside) =
        file_node_lem g fuel location i (len i) k name.string name.short (short i (omega arith))
          (omega arith) laid.read_word (omega (arith, laid.in_front, laid.apart)) in
      let next : add32 i 1 ≡ i + 1 = omega arith in
      let (m', rest, nodes, outside') =
        file_nodes_from f r (i + 1) (record k { memory = m₁ }) (omega arith) (omega arith)
          (load32_agree m₁ k.memory g.initrd_header (λ b l u.
              outside b (omega (arith, laid.in_front)) (omega (arith, laid.in_front, laid.apart)))
            ∙ counted)
          (λ j l u.
            later k.memory m₁ j (names j (omega arith) u)
              (λ b p q. outside b (omega arith) (omega (arith, laid.in_front, laid.apart)))) in
      (
        m',
        file_nodes-step g f fuel location i nfiles k m₁ counted (omega arith) ran
            ∙ subst
                (λ x.
                  file_nodes g f fuel location x (record k { memory = m₁ })
                  ≡ ok (tt, record k { memory = m' }))
                (sym next) rest,
        (λ j l u. elim (Bool-cases (j == i)) [
          | inl here ↦
              let same : i ≡ j = ground arith in
              subst (λ x. FileNode k.memory m' g location x (len x)) same
                (agree-FileNode k.memory k.memory m₁ m' g location i (len i) name.short
                  (λ b p q. refl)
                  (λ b p q. outside' b (omega arith) (omega (arith, laid.in_front, laid.apart)))
                  (λ b p q. outside' b (omega (arith, laid.in_front, laid.apart)) (omega arith))
                  node)
          | inr other ↦
              let above : i < j = ground arith in
              agree-FileNode k.memory m₁ m' m' g location j (len j) (names j l u).short
                (λ b p q. outside b (omega arith) (omega (arith, laid.in_front, laid.apart)))
                (λ b p q. refl) (λ b p q. refl) (nodes j (omega arith) u)
        ]),
        (λ b o p. outside' b (omega arith) (omega arith) ∙ outside b (omega arith) (omega arith)),
      )
    where
      -- The names of the files behind stay.
      later :
          (m m₁ : Memory) (j : ℕ)
          → IsNamed m g j (len j)
          → ((b : ℕ) → file_header g j ≤ b → b < file_header g j + 76 → m₁ b ≡ m b)
          → IsNamed m₁ g j (len j)
      later m m₁ j named same = record {
        string =
            agree-IsString m m₁ (file_header g j + 1) (len j)
              (λ b l u. same b (omega arith) (omega (arith, named.short))) named.string;
        short = named.short;
      }

  -- Where the ramdisk's header lies in front of the headers of its files, the place for the nodes is
  -- apart from both, the address of `initrd_read` is a word, and each file has a name of less than
  -- 64 characters, with fuel beyond the number of files and beyond each name, the loop of
  -- `initialize_initrd` returns: the node of each file has the file's name, length and number, is
  -- marked as a file and is read by `initrd_read`; each header's offset has the place of the ramdisk
  -- added to it; and no byte outside the nodes and the headers of files changes.
  pub file_nodes_lem :
      (rounds : ℕ) (k : Kernel)
      → nfiles < rounds
      → load32 k.memory g.initrd_header ≡ nfiles
      → ((j : ℕ) → j < nfiles → IsNamed k.memory g j (len j))
      → (m' : Memory) × (file_nodes g rounds fuel location 0 k ≡ ok (tt, record k { memory = m' }))
        × ((j : ℕ) → j < nfiles → FileNode k.memory m' g location j (len j))
        × ((b : ℕ)
            → (b < g.file_headers) ⊎ (g.file_headers + 76 * nfiles ≤ b)
            → (b < g.root_nodes) ⊎ (g.root_nodes + 184 * nfiles ≤ b)
            → m' b ≡ k.memory b)
  file_nodes_lem rounds k enough counted names =
      let (m', ran, nodes, outside) =
        file_nodes_from rounds nfiles 0 k enough (omega arith) counted (λ j l u. names j u) in
      (m', ran, (λ j u. nodes j (omega arith) u), (λ b o p. outside b (omega arith) (omega arith)))
