-- ===== src/Task/RoundRobin.antt =====
-- Runs with several switches of tasks, by `switch_task` of IcarusOS/task.c.
use cmsi.Base.{ℕ, zero, suc, ◌+◌, ◌<◌, ◌≡◌, ◌≢◌, refl, sym, ap, ◌∙◌, arith}
use cmsi.Base.{List, [], ◌∷◌, ◌++◌, length, get_or, some, length-append}
use mathlib.Core.Path.{subst}
use cmsi.Base.Outcome.{Outcome, ok, ok-injective}
use cmsi.Kernel.{Kernel}
use cmsi.Memory.{load32}
use cmsi.Task.{Registers, Switch, switch_task, switched, at_next}
use cmsi.Task.Queue.{IsTasks, agree-IsTasks, All, All-split, All-append}
use cmsi.Task.Switching.{Scheduled, rotate, loaded, switch_task_lem}

get_or-front : (i : ℕ) (ts us : List ℕ) → i < length ts → get_or (ts ++ us) i 0 ≡ get_or ts i 0
get_or-front i [] us h = absurd (omega arith)
get_or-front zero (t ∷ ts) us h = refl
get_or-front (suc i) (t ∷ ts) us h = get_or-front i ts us (omega arith)

get_or-rotate :
    (i : ℕ) (ts : List ℕ) → suc i < length ts → get_or (rotate ts) i 0 ≡ get_or ts (suc i) 0
get_or-rotate i [] h = absurd (omega arith)
get_or-rotate i (t ∷ ts) h = get_or-front i ts (t ∷ []) (omega arith)

-- What holds of each task in the order of turns holds of each task in the list.
pub All-listed :
    (P : ℕ → Type 0) (k : Kernel) (order : List ℕ) (s : Scheduled k order)
    → All P order
    → All P (s.before ++ (s.current ∷ s.after))
All-listed P k order s all =
    let (first, rest) = subst (All P) s.turns all in
    let (behind, front) = All-split P s.after s.before rest in
    All-append P s.before (s.current ∷ s.after) front (first, behind)

All-rotate : (P : ℕ → Type 0) (ts : List ℕ) → All P ts → All P (rotate ts)
All-rotate P [] h = h
All-rotate P (t ∷ ts) (h, hs) = All-append P ts (t ∷ []) hs (h, tt)

-- What runs between two switches leaves the list of these tasks alone.
pub record KeepsTasks (tasks : List ℕ) (k l : Kernel) : Type 0 where
  pub same_task : l.current_task ≡ k.current_task
  pub same_queue : l.ready_queue ≡ k.ready_queue
  pub same_next : All (λ t. load32 l.memory (at_next t) ≡ load32 k.memory (at_next t)) tasks

-- A run with a number of switches of tasks in it, and other work between them.
pub data Run (tasks : List ℕ) (k : Kernel) : ℕ → Kernel → Type 0 where
  start : Run tasks k zero k
  work : {n : ℕ} {l l' : Kernel} → Run tasks k n l → KeepsTasks tasks l l' → Run tasks k n l'
  turn :
      {n : ℕ} {l l' : Kernel} {sw : Switch} (eip : ℕ) (regs : Registers)
      → Run tasks k n l
      → eip ≢ switched
      → switch_task eip regs l ≡ ok (some sw, l')
      → Run tasks k (suc n) l'

abbrev pub rotations : ℕ → List ℕ → List ℕ
rotations zero ts = ts
rotations (suc n) ts = rotate (rotations n ts)

All-rotations : (P : ℕ → Type 0) (n : ℕ) (ts : List ℕ) → All P ts → All P (rotations n ts)
All-rotations P zero ts h = h
All-rotations P (suc n) ts h = All-rotate P (rotations n ts) (All-rotations P n ts h)

pub keeps-Scheduled :
    (k l : Kernel) (order : List ℕ) → KeepsTasks order k l → Scheduled k order → Scheduled l order
keeps-Scheduled k l order keeps s =
    let list = s.before ++ (s.current ∷ s.after) in
    record {
      before = s.before;
      current = s.current;
      after = s.after;
      turns = s.turns;
      runs = keeps.same_task ∙ s.runs;
      queue =
          subst (λ p. IsTasks l.memory p list) (sym keeps.same_queue)
            (agree-IsTasks k.memory l.memory k.ready_queue list
              (All-listed _ k order s keeps.same_next) s.queue);
      apart = s.apart;
    }

ok_result :
    {A : Type 0} (a b : A) (k l : Kernel)
    → ◌≡◌ {A = Outcome (A × Kernel)} (ok (a, k)) (ok (b, l))
    → k ≡ l
ok_result {A} a b k l h = ap (λ (p : A × Kernel). p.1) (ok-injective h)

pub Run-Scheduled :
    (order : List ℕ) {k l : Kernel} {n : ℕ}
    → Scheduled k order
    → Run order k n l
    → Scheduled l (rotations n order)
Run-Scheduled order s start = s
Run-Scheduled order s (work {n} {l} {l'} r keeps) =
    keeps-Scheduled l l' (rotations n order)
      (record {
        same_task = keeps.same_task;
        same_queue = keeps.same_queue;
        same_next = All-rotations _ n order keeps.same_next;
      })
      (Run-Scheduled order s r)
Run-Scheduled order s (turn {n} {l} {l'} {sw} eip regs r fresh ran) =
    let (k', ran', turns, _, _) =
      switch_task_lem l (rotations n order) eip regs (Run-Scheduled order s r) fresh in
    subst (λ x. Scheduled x (rotate (rotations n order)))
      (ok_result (some (loaded k'.memory k'.current_task)) (some sw) k' l' (sym ran' ∙ ran)) turns

length-rotate : (ts : List ℕ) → length (rotate ts) ≡ length ts
length-rotate [] = refl
length-rotate (t ∷ ts) = omega (arith, length-append ts (t ∷ []))

get_or-rotations :
    (n i : ℕ) (ts : List ℕ)
    → n + i < length ts
    → (get_or (rotations n ts) i 0 ≡ get_or ts (n + i) 0) × (length (rotations n ts) ≡ length ts)
get_or-rotations zero i ts h = (ap (λ (j : ℕ). get_or ts j 0) (omega arith), refl)
get_or-rotations (suc n) i ts h =
    let (next, long) = get_or-rotations n (suc i) ts (omega arith) in
    (
      get_or-rotate i (rotations n ts) (omega (arith, long))
          ∙ next
          ∙ ap (λ (j : ℕ). get_or ts j 0) (omega arith),
      length-rotate (rotations n ts) ∙ long,
    )

-- From a state in which `order` has the tasks in the order of their turns, after a run with `n`
-- switches of tasks, where `n` is less than the number of tasks and what happens between switches
-- leaves the tasks' list alone, the current task is number `n` of `order`: each task gets its turn.
pub round_robin :
    (k l : Kernel) (order : List ℕ) (n : ℕ)
    → Scheduled k order
    → n < length order
    → Run order k n l
    → l.current_task ≡ get_or order n 0
round_robin k l order n s h r =
    let s' = Run-Scheduled order s r in
    let (at, _) = get_or-rotations n 0 order (omega arith) in
    s'.runs
    ∙ ap (λ (ts : List ℕ). get_or ts 0 0) (sym s'.turns)
    ∙ at
    ∙ ap (λ (j : ℕ). get_or order j 0) (omega arith)
