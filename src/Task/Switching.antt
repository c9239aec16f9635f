-- ===== src/Task/Switching.antt =====
-- About `switch_task` of IcarusOS/task.c.
use cmsi.Base.{ℕ, ◌+◌, ◌≤◌, ◌≡◌, ◌≢◌, ◌⊎◌, inl, inr, refl, sym, ap, ◌∙◌, arith}
use cmsi.Base.{List, [], ◌∷◌, ◌++◌, false, some, ◌==◌, if◌then◌else◌}
use mathlib.Core.Path.{subst}
use mathlib.Core.List.{append_assoc, append-nil}
use cmsi.Base.Outcome.{ok}
use cmsi.Memory.{Memory, load32, store32}
use cmsi.Memory.Access.{load32-store32_ne}
use cmsi.Kernel.{Kernel}
use cmsi.Task.{
  Registers, Switch, switch_task, switched, at_esp, at_ebp, at_eip, at_page_directory, at_next,
}
use cmsi.Task.Queue.{IsTasks, Apart, All, All-map, Disjoint, agree-IsTasks}

-- The tasks in the order of their turns, the current one first: those behind it in the list, then those
-- in front of it.
pub record Scheduled (k : Kernel) (order : List ℕ) : Type 0 where
  pub before : List ℕ
  pub current : ℕ
  pub after : List ℕ
  pub turns : order ≡ current ∷ (after ++ before)
  pub runs : k.current_task ≡ current
  pub queue : IsTasks k.memory k.ready_queue (before ++ (current ∷ after))
  pub apart : Disjoint (before ++ (current ∷ after))

-- The current task goes to the end.
abbrev pub rotate : List ℕ → List ℕ
rotate [] = []
rotate (t ∷ ts) = ts ++ (t ∷ [])

-- The memory when the registers of the task `t` are saved.
unfoldable pub saved : Memory → (t eip : ℕ) → Registers → Memory
saved m t eip regs =
    store32 (store32 (store32 m (at_eip t) eip) (at_esp t) regs.esp) (at_ebp t) regs.ebp

saved-away :
    (m : Memory) (t eip : ℕ) (regs : Registers) (a : ℕ)
    → (a + 4 ≤ t + 4) ⊎ (t + 16 ≤ a)
    → load32 (saved m t eip regs) a ≡ load32 m a
unfolding saved
saved-away m t eip regs a away =
    load32-store32_ne _ (at_ebp t) regs.ebp a (omega arith)
    ∙ load32-store32_ne _ (at_esp t) regs.esp a (omega arith)
    ∙ load32-store32_ne m (at_eip t) eip a (omega arith)

-- A task in the list, and the list behind it.
IsTasks-at :
    (m : Memory) (p : ℕ) (before : List ℕ) (t : ℕ) (after : List ℕ)
    → IsTasks m p (before ++ (t ∷ after))
    → (t ≢ 0) × IsTasks m (load32 m (at_next t)) after
IsTasks-at m p [] t after (_, some_task, rest) = (some_task, rest)
IsTasks-at m p (b ∷ bs) t after (_, _, rest) = IsTasks-at m (load32 m (at_next b)) bs t after rest

-- The others lie apart from it.
Disjoint-at :
    (before : List ℕ) (t : ℕ) (after : List ℕ)
    → Disjoint (before ++ (t ∷ after))
    → All (λ u. (u ≡ t) ⊎ Apart t u) (before ++ (t ∷ after))
Disjoint-at [] t after (far, _) = (inl refl, All-map (Apart t) _ after (λ u a. inr a) far)
Disjoint-at (b ∷ bs) t after (far, rest) =
    (inr (swap (apart_from bs far)), Disjoint-at bs t after rest)
  where
    swap : Apart b t → Apart t b
    swap h = omega arith

    apart_from : (us : List ℕ) → All (Apart b) (us ++ (t ∷ after)) → Apart b t
    apart_from [] (h, _) = h
    apart_from (u ∷ us) (_, hs) = apart_from us hs

saved-IsTasks :
    (m : Memory) (p : ℕ) (before : List ℕ) (t : ℕ) (after : List ℕ) (eip : ℕ) (regs : Registers)
    → Disjoint (before ++ (t ∷ after))
    → IsTasks m p (before ++ (t ∷ after))
    → IsTasks (saved m t eip regs) p (before ++ (t ∷ after))
saved-IsTasks m p before t after eip regs d =
    agree-IsTasks m (saved m t eip regs) p (before ++ (t ∷ after)) (
      All-map _ _ (before ++ (t ∷ after)) (λ u h. saved-away m t eip regs (at_next u) (omega arith))
        (Disjoint-at before t after d))

-- The switch to a given next task.
turned : Kernel → (eip : ℕ) → Registers → (next : ℕ) → Kernel
turned k eip regs next =
    let m = saved k.memory k.current_task eip regs in
    record k {
      memory = m;
      current_task = next;
      current_directory = load32 m (at_page_directory next);
    }

-- What the switch loads is what the next task has saved.
abbrev pub loaded : Memory → (t : ℕ) → Switch
loaded m t = record {
  to_eip = load32 m (at_eip t);
  to_regs = record { esp = load32 m (at_esp t); ebp = load32 m (at_ebp t) };
  cr3 = load32 m (load32 m (at_page_directory t) + 0x2000);
}

switch_task-run :
    (k : Kernel) (eip : ℕ) (regs : Registers) (next : ℕ)
    → k.current_task ≢ 0
    → eip ≢ switched
    → (if load32 (saved k.memory k.current_task eip regs) (at_next k.current_task) == 0
        then k.ready_queue
        else load32 (saved k.memory k.current_task eip regs) (at_next k.current_task))
      ≡ next
    → switch_task eip regs k
      ≡ ok (some (loaded (saved k.memory k.current_task eip regs) next), turned k eip regs next)
unfolding switch_task saved turned
switch_task-run k eip regs next some_task fresh goes =
    let tasking : (k.current_task == 0) ≡ false = ground arith in
    let first : (eip == 0x12345) ≡ false = ground arith in simp (tasking, first, goes)

-- The parts of the list after a switch, from the parts before it.
turned-Scheduled :
    (k : Kernel) (eip : ℕ) (regs : Registers) (before : List ℕ) (t : ℕ) (after : List ℕ)
    → k.current_task ≡ t
    → IsTasks (saved k.memory t eip regs) k.ready_queue (before ++ (t ∷ after))
    → Disjoint (before ++ (t ∷ after))
    → (next : ℕ) × ((if load32 (saved k.memory t eip regs) (at_next t) == 0
          then k.ready_queue
          else load32 (saved k.memory t eip regs) (at_next t))
        ≡ next)
      × Scheduled (turned k eip regs next) ((after ++ before) ++ (t ∷ []))
unfolding turned
turned-Scheduled k eip regs [] t [] here q d =
    let (ready, some_task, end) = q in
    let m = saved k.memory t eip regs in
    (
      t,
      ground (arith, ready, end),
      record {
        before = [];
        current = t;
        after = [];
        turns = refl;
        runs = refl;
        queue =
            subst (λ c. IsTasks (saved k.memory c eip regs) k.ready_queue (t ∷ [])) (sym here) q;
        apart = d;
      },
    )
turned-Scheduled k eip regs (b ∷ bs) t [] here q d =
    let (ready, _, rest) = q in
    let (_, end) = IsTasks-at (saved k.memory t eip regs) k.ready_queue (b ∷ bs) t [] q in
    (
      b,
      ground (arith, ready, end),
      record {
        before = [];
        current = b;
        after = bs ++ (t ∷ []);
        turns = ap (λ l. b ∷ l) (sym (append-nil (bs ++ (t ∷ []))));
        runs = refl;
        queue =
            subst (λ c. IsTasks (saved k.memory c eip regs) k.ready_queue (b ∷ (bs ++ (t ∷ []))))
              (sym here) q;
        apart = d;
      },
    )
turned-Scheduled k eip regs before t (a ∷ us) here q d =
    let (_, (next, some_next, _)) =
      IsTasks-at (saved k.memory t eip regs) k.ready_queue before t (a ∷ us) q in
    let regroup : before ++ (t ∷ a ∷ us) ≡ (before ++ (t ∷ [])) ++ (a ∷ us) =
      sym (append_assoc before (t ∷ []) (a ∷ us)) in
    (
      a,
      ground (arith, next, some_next),
      record {
        before = before ++ (t ∷ []);
        current = a;
        after = us;
        turns = ap (λ l. a ∷ l) (append_assoc us before (t ∷ []));
        runs = refl;
        queue =
            subst
              (λ c.
                IsTasks (saved k.memory c eip regs) k.ready_queue
                  ((before ++ (t ∷ [])) ++ (a ∷ us)))
              (sym here)
              (subst (λ l. IsTasks (saved k.memory t eip regs) k.ready_queue l) regroup q);
        apart = subst Disjoint regroup d;
      },
    )

-- From a state in which `order` has the tasks in the order of their turns, `switch_task` saves the
-- registers in the current task, whose turn comes last then, makes the next task and its page
-- directory the current ones, and loads what that task has saved, for an instruction pointer other
-- than the mark of a return by a switch.
pub switch_task_lem :
    (k : Kernel) (order : List ℕ) (eip : ℕ) (regs : Registers)
    → Scheduled k order
    → eip ≢ switched
    → (k' : Kernel) × (switch_task eip regs k ≡ ok (some (loaded k'.memory k'.current_task), k'))
      × Scheduled k' (rotate order)
      × (k'.memory ≡ saved k.memory k.current_task eip regs)
      × (k'.current_directory ≡ load32 k'.memory (at_page_directory k'.current_task))
unfolding turned
switch_task_lem k order eip regs s fresh =
    let (some_task, _) = IsTasks-at k.memory k.ready_queue s.before s.current s.after s.queue in
    let (next, goes, turns) =
      turned-Scheduled k eip regs s.before s.current s.after s.runs
        (saved-IsTasks k.memory k.ready_queue s.before s.current s.after eip regs s.apart s.queue)
        s.apart in
    (
      turned k eip regs next,
      switch_task-run k eip regs next (λ z. some_task (sym s.runs ∙ z)) fresh
          (subst
            (λ c.
              (if load32 (saved k.memory c eip regs) (at_next c) == 0
                then k.ready_queue
                else load32 (saved k.memory c eip regs) (at_next c))
              ≡ next)
            (sym s.runs) goes),
      subst (λ l. Scheduled (turned k eip regs next) (rotate l)) (sym s.turns) turns,
      refl,
      refl,
    )
