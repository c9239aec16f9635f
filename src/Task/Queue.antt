-- ===== src/Task/Queue.antt =====
-- The linked list of tasks as a sequence, and what `extend` does to it.
use cmsi.Base.{ℕ, zero, suc, ◌+◌, ◌^◌, ◌≤◌, ◌<◌, ◌≡◌, ◌≢◌, ◌⊎◌, refl, sym, ◌∙◌, arith}
use cmsi.Base.{List, [], ◌∷◌, ◌++◌, length, true, false, ◌==◌}
use mathlib.Core.Path.{subst}
use cmsi.Base.Outcome.{ok}
use cmsi.Memory.{Memory, load32, store32}
use cmsi.Memory.Access.{load32-store32_self, load32-store32_ne}
use cmsi.Kernel.{Kernel}
use cmsi.Task.{extend, at_next}

-- The tasks from `p` on are `ts`.
abbrev pub IsTasks : Memory → (p : ℕ) → (ts : List ℕ) → Type 0
IsTasks m p [] = p ≡ 0
IsTasks m p (t ∷ ts) = (p ≡ t) × (t ≢ 0) × IsTasks m (load32 m (at_next t)) ts

-- Two task structures do not overlap.
abbrev pub Apart : ℕ → ℕ → Type 0
Apart t u = (t + 24 ≤ u) ⊎ (u + 24 ≤ t)

abbrev pub All : (ℕ → Type 0) → List ℕ → Type 0
All P [] = Unit
All P (t ∷ ts) = P t × All P ts

abbrev pub Disjoint : List ℕ → Type 0
Disjoint [] = Unit
Disjoint (t ∷ ts) = All (Apart t) ts × Disjoint ts

pub All-map : (P Q : ℕ → Type 0) (ts : List ℕ) → ((t : ℕ) → P t → Q t) → All P ts → All Q ts
All-map P Q [] f h = tt
All-map P Q (t ∷ ts) f (h, hs) = (f t h, All-map P Q ts f hs)

-- Tasks stay where their `next` words stay.
pub agree-IsTasks :
    (m n : Memory) (p : ℕ) (ts : List ℕ)
    → All (λ t. load32 n (at_next t) ≡ load32 m (at_next t)) ts
    → IsTasks m p ts
    → IsTasks n p ts
agree-IsTasks m n p [] same h = h
agree-IsTasks m n p (t ∷ ts) (e, same) (here, some_task, rest) = (
  here,
  some_task,
  subst (λ x. IsTasks n x ts) (sym e) (agree-IsTasks m n (load32 m (at_next t)) ts same rest),
)

pub All-append : (P : ℕ → Type 0) (ts us : List ℕ) → All P ts → All P us → All P (ts ++ us)
All-append P [] us h k = k
All-append P (t ∷ ts) us (h, hs) k = (h, All-append P ts us hs k)

pub All-split : (P : ℕ → Type 0) (ts us : List ℕ) → All P (ts ++ us) → All P ts × All P us
All-split P [] us h = (tt, h)
All-split P (t ∷ ts) us (h, hs) = let (left, right) = All-split P ts us hs in ((h, left), right)

-- The last of the tasks `t` and `ts`.
abbrev pub last_of : ℕ → List ℕ → ℕ
last_of t [] = t
last_of t (u ∷ us) = last_of u us

pub All-last : (P : ℕ → Type 0) (t : ℕ) (ts : List ℕ) → P t → All P ts → P (last_of t ts)
All-last P t [] h hs = h
All-last P t (u ∷ us) h (k, ks) = All-last P u us k ks

-- With fuel for the tasks, `extend` writes the new task behind the last.
extend-run :
    (fuel : ℕ) (k : Kernel) (t : ℕ) (ts : List ℕ) (new : ℕ)
    → length ts < fuel
    → IsTasks k.memory t (t ∷ ts)
    → extend fuel t new k
      ≡ ok (tt, record k { memory = store32 k.memory (at_next (last_of t ts)) new })
unfolding extend
extend-run zero k t ts new h q = absurd (omega arith)
extend-run (suc f) k t [] new h (_, _, end) =
    let ends : (load32 k.memory (at_next t) == 0) ≡ true = ground arith in rw ends refl
extend-run (suc f) k t (u ∷ us) new h (_, _, (next, next_task, rest)) =
    let more : (load32 k.memory (at_next t) == 0) ≡ false = ground arith in
    rw (more, next) (extend-run f k u us new (omega arith) (refl, next_task, rest))

-- The tasks after the write.
extended :
    (m : Memory) (t : ℕ) (ts : List ℕ) (new : ℕ)
    → IsTasks m t (t ∷ ts)
    → Disjoint (t ∷ ts)
    → All (Apart new) (t ∷ ts)
    → load32 m (at_next new) ≡ 0
    → new ≢ 0
    → new < 2 ^ 32
    → IsTasks (store32 m (at_next (last_of t ts)) new) t (t ∷ ts ++ new ∷ [])
extended m t [] new (_, some_task, _) d (away, _) end some_new word =
    let written = load32-store32_self m (at_next t) new word in
    let kept = load32-store32_ne m (at_next t) new (at_next new) (omega arith) in
    (refl, some_task, (written, some_new, kept ∙ end))
extended m t (u ∷ us) new (_, some_task, (next, next_task, rest)) (far, d) (away, aways) end
      some_new word =
    let m' = store32 m (at_next (last_of u us)) new in
    let apart = All-last (Apart t) u us far.0 far.1 in
    let kept : load32 m' (at_next t) ≡ load32 m (at_next t) =
      load32-store32_ne m (at_next (last_of u us)) new (at_next t) (omega arith) in
    (
      refl,
      some_task,
      subst (λ x. IsTasks m' x (u ∷ us ++ new ∷ [])) (sym (kept ∙ next))
          (extended m u us new (refl, next_task, rest) d aways end some_new word),
    )

-- `extend` appends a task to the sequence.
pub extend_lem :
    (fuel : ℕ) (k : Kernel) (t : ℕ) (ts : List ℕ) (new : ℕ)
    → length ts < fuel
    → IsTasks k.memory t (t ∷ ts)
    → Disjoint (t ∷ ts)
    → All (Apart new) (t ∷ ts)
    → load32 k.memory (at_next new) ≡ 0
    → new ≢ 0
    → new < 2 ^ 32
    → (m : Memory) × (extend fuel t new k ≡ ok (tt, record k { memory = m }))
      × (m ≡ store32 k.memory (at_next (last_of t ts)) new)
      × IsTasks m t (t ∷ ts ++ new ∷ [])
extend_lem fuel k t ts new h q d away end some_new word = (
  store32 k.memory (at_next (last_of t ts)) new,
  extend-run fuel k t ts new h q,
  refl,
  extended k.memory t ts new q d away end some_new word,
)
