-- ===== src/Initrd/Finding.antt =====
-- Which node `initrd_finddir` finds.
use cmsi.Base.{ℕ, zero, suc, ◌+◌, ◌≤◌, ◌<◌, ◌≡◌, ◌≢◌, ◌⊎◌, inl, inr, refl, arith}
use cmsi.Base.{true, false, ◌&&◌, ◌==◌, Bool-cases}
use mathlib.Core.Path.{subst}
use cmsi.Base.{ltb}
use cmsi.Memory.{Memory, load8}
use cmsi.Strings.{strcmp}
use cmsi.Strings.Laws.{strcmp_lem}
use cmsi.Initrd.{Initrd, initrd_finddir, find_node, root_node}

-- The first four bytes of two names are the same.
abbrev pub SameStart : Memory → (a b : ℕ) → Type 0
SameStart m a b = (j : ℕ) → j < 4 → load8 m (a + j) ≡ load8 m (b + j)

-- Some of the first four bytes differ.
abbrev pub OtherStart : Memory → (a b : ℕ) → Type 0
OtherStart m a b = (j : ℕ) × (j < 4) × (load8 m (a + j) ≢ load8 m (b + j))

-- What a search from node `i` up to node `n` comes to.
abbrev pub FoundNode : Initrd → Memory → (name i n : ℕ) → (result : ℕ) → Type 0
FoundNode g m name i n result =
    ((k : ℕ) × (i ≤ k)
      × (k < n)
      × (result ≡ root_node g k)
      × SameStart m name (root_node g k)
      × ((j : ℕ) → i ≤ j → j < k → OtherStart m name (root_node g j)))
    ⊎ ((result ≡ 0) × ((j : ℕ) → i ≤ j → j < n → OtherStart m name (root_node g j)))

find_node_lem :
    (g : Initrd) (name rounds i : ℕ) (m : Memory)
    → FoundNode g m name i (i + rounds) (find_node g name rounds i m)
unfolding find_node
find_node_lem g name zero i m = inr (refl, λ j l h. absurd (omega arith))
find_node_lem g name (suc n) i m = elim (strcmp_lem m name (root_node g i)) [
  | inl (same, all) ↦
      let found : (strcmp m name (root_node g i) == 0) ≡ true = ground arith in
      inl (i, omega arith, omega arith, rw found refl, all, λ j l h. absurd (omega arith))
  | inr (other, differ) ↦
      let next : (strcmp m name (root_node g i) == 0) ≡ false = ground arith in
      let earlier = λ (j : ℕ) (l : i ≤ j) (h : j < i + 1).
        let here : i ≡ j = omega arith in
        subst (λ x. OtherStart m name (root_node g x)) here differ in
      elim (find_node_lem g name n (i + 1) m) [
        | inl (k, l, u, e, start, before) ↦ inl (
          k,
          omega arith,
          omega arith,
          rw next e,
          start,
          λ j p q. elim (Bool-cases (ltb j (i + 1))) [
            | inl first ↦ earlier j p (ground arith)
            | inr later ↦ before j (ground arith) q
          ],
        )
        | inr (e, none_there) ↦ inr (
          rw next e,
          λ j p q. elim (Bool-cases (ltb j (i + 1))) [
            | inl first ↦ earlier j p (ground arith)
            | inr later ↦ none_there j (ground arith) (omega arith)
          ],
        )
      ]
]

-- `initrd_finddir` compares the first four bytes of names alone: in the root directory a name that
-- starts as "dev" gives the node of /dev; otherwise the result is the first node whose name starts
-- as the given one, or 0 if there is none.
pub initrd_finddir_lem :
    (g : Initrd) (node name : ℕ) (m : Memory)
    → ((node ≡ g.initrd_root)
        → SameStart m name g.text_dev
        → initrd_finddir g node name m ≡ g.initrd_dev)
      × ((node ≢ g.initrd_root) ⊎ OtherStart m name g.text_dev
          → FoundNode g m name 0 g.nroot_nodes (initrd_finddir g node name m))
unfolding initrd_finddir
initrd_finddir_lem g node name m = (
  λ here same.
      let equal : (strcmp m name g.text_dev == 0) ≡ true = elim (strcmp_lem m name g.text_dev) [
        | inl (e, _) ↦ ground arith
        | inr (_, (j, h, differ)) ↦ absurd (differ (same j h))
      ] in
      let root : (node == g.initrd_root) ≡ true = ground arith in rw (equal, root) refl,
  λ h.
      let elsewhere : (node == g.initrd_root) && (strcmp m name g.text_dev == 0) ≡ false = elim h [
        | inl other ↦ ground arith
        | inr (j, l, differ) ↦ elim (strcmp_lem m name g.text_dev) [
          | inl (_, all) ↦ absurd (differ (all j l))
          | inr (e, _) ↦ ground arith
        ]
      ] in
      let all : 0 + g.nroot_nodes ≡ g.nroot_nodes = omega arith in
      rw elsewhere (
        subst (λ x. FoundNode g m name 0 x (find_node g name g.nroot_nodes 0 m)) all
          (find_node_lem g name g.nroot_nodes 0 m)),
)
