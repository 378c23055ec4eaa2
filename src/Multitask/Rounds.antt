-- ===== src/Multitask/Rounds.antt =====
-- The order in which the scheduler takes the tasks, and the state that each is resumed with.
use pingu_os.Common.{
  ℕ, suc, ◌+◌, ◌%◌, ◌≤◌, ◌<◌, ◌≡◌, ◌≢◌, ◌⊎◌, inl, inr, refl, ◌∙◌, sym, subst, ap, arith, true,
  false, Bool-cases, some, List, [], ◌∷◌, ◌++◌, ◌==◌, ==-refl, leb, if◌then◌else◌, length,
  length-append, get_or,
}
use native.Mathlib.Decide.{ℕ_discrete}
use native.Mathlib.Nat.{mod_self}
use pingu_os.Multitask.{TaskManager, Tasks, max_tasks, add_task, save_state, next_task, scheduler}

-- One call of the scheduler after the other, at each of the states at which the timer interrupts;
-- the state returned last.
unfoldable pub interrupts : TaskManager → Tasks → ℕ → List ℕ → ℕ × TaskManager × Tasks
interrupts tm st last [] = (last, tm, st)
interrupts tm st last (c ∷ cs) = let (r, tm', st') = scheduler tm st c in interrupts tm' st' r cs

-- No task is in the table twice.
abbrev pub AllDifferent : List ℕ → Type 0
AllDifferent tasks =
    (a b : ℕ) → a < length tasks → b < length tasks → a ≢ b → get_or tasks a 0 ≢ get_or tasks b 0

-- Going on from `j` by `m` tasks, around the table of `n`, leads to `i`.
abbrev pub Leads : ℕ → ℕ → ℕ → ℕ → Type 0
Leads n j m i = (j + m ≡ i) ⊎ (j + m ≡ i + n)

-- The successor of a place in a table of `n`.
abbrev pub successor : ℕ → ℕ → ℕ
successor j n = if j + 1 == n then 0 else j + 1

leb_refl : (n : ℕ) → leb n n ≡ true
leb_refl n = ground arith

next_task_lem : (j n : ℕ) → j < n → next_task (some j) n ≡ successor j n
unfolding next_task
next_task_lem j n h = elim (ℕ_discrete (j + 1) n) [
  | yes same ↦
      subst
        (λ x. (if leb x (j + 1) then (j + 1) % x else j + 1) ≡ (if j + 1 == x then 0 else j + 1))
        same (rw (==-refl (j + 1), mod_self (j + 1), leb_refl (j + 1)) refl)
  | no other ↦
      let below : leb n (j + 1) ≡ false = ground arith in
      let differ : (j + 1 == n) ≡ false = ground arith in rw (below, differ) refl
]

turn_on :
    (n j m i : ℕ)
    → j < n
    → i < n
    → suc m < n
    → Leads n j (suc m) i
    → (j ≢ i) × Leads n (successor j n) m i
turn_on n j m i h h' short (inl leads) =
    let differ : (j + 1 == n) ≡ false = ground arith in
    (λ same. omega (arith, leads, same), rw differ (inl (omega (arith, leads))))
turn_on n j m i h h' short (inr leads) = elim (ℕ_discrete (j + 1) n) [
  | yes last ↦
      let here : (j + 1 == n) ≡ true = ground arith in
      (λ same. omega (arith, leads, same, short), rw here (inl (omega (arith, leads, last))))
  | no other ↦
      let differ : (j + 1 == n) ≡ false = ground arith in
      (λ same. omega (arith, leads, same, short), rw differ (inr (omega (arith, leads))))
]

successor_lt : (j n : ℕ) → j < n → successor j n < n
successor_lt j n h = elim (ℕ_discrete (j + 1) n) [
  | yes last ↦ let here : (j + 1 == n) ≡ true = ground arith in rw here (omega (arith, h))
  | no other ↦
      let differ : (j + 1 == n) ≡ false = ground arith in rw differ (omega (arith, h, other))
]

-- A task manager at a place of its table.
abbrev pub at_task : List ℕ → ℕ → TaskManager
at_task tasks j = record { tasks = tasks; curr_task = some j }

-- The tasks' states after an interrupt of the `j`-th.
abbrev pub saved : List ℕ → Tasks → ℕ → ℕ → Tasks
saved tasks st j c = λ task. if task == get_or tasks j 0 then c else st task

scheduler_lem :
    (tasks : List ℕ) (st : Tasks) (j c : ℕ)
    → j < length tasks
    → scheduler (at_task tasks j) st c ≡ (
      saved tasks st j c (get_or tasks (successor j (length tasks)) 0),
      at_task tasks (successor j (length tasks)),
      saved tasks st j c,
    )
unfolding scheduler save_state
scheduler_lem tasks st j c h =
    let some_tasks : leb (length tasks) 0 ≡ false = ground arith in
    rw (some_tasks, next_task_lem j (length tasks) h) refl

pub resume :
    (cs : List ℕ) (tasks : List ℕ) (st : Tasks) (last j i c : ℕ)
    → AllDifferent tasks
    → j < length tasks
    → i < length tasks
    → length cs < length tasks
    → Leads (length tasks) j (length cs) i
    → st (get_or tasks i 0) ≡ c
    → last ≡ st (get_or tasks j 0)
    → (interrupts (at_task tasks j) st last cs).0 ≡ c
unfolding interrupts
resume [] tasks st last j i c different h h' short leads held now =
    now ∙ ap (λ x. st (get_or tasks x 0)) (arrived leads) ∙ held
  where
    arrived : Leads (length tasks) j 0 i → j ≡ i
    arrived (inl e) = omega (arith, e)
    arrived (inr e) = omega (arith, e, h, h')
resume (d ∷ cs) tasks st last j i c different h h' short leads held now =
    let n = length tasks in
    let (elsewhere, leads') = turn_on n j (length cs) i h h' short leads in
    let apart : (get_or tasks i 0 == get_or tasks j 0) ≡ false =
      unequal (get_or tasks i 0) (get_or tasks j 0)
        (different i j h' h (λ same. elsewhere (sym same))) in
    let held' = ap (λ b. if b then d else st (get_or tasks i 0)) apart ∙ held in
    subst (λ r. (interrupts r.1 r.2 r.0 cs).0 ≡ c) (sym (scheduler_lem tasks st j d h))
      (resume cs tasks (saved tasks st j d) (saved tasks st j d (get_or tasks (successor j n) 0))
        (successor j n) i c different (successor_lt j n h) h' (omega (arith, short)) leads' held'
        refl)
  where
    unequal : (a b : ℕ) → a ≢ b → (a == b) ≡ false
    unequal a b other = ground arith

-- A task that is interrupted in a given state is resumed with that state, at the interrupt that
-- comes as many interrupts later as there are tasks: every other task has then had one turn. The
-- table holds no task twice, and no task is added meanwhile.
pub interrupts-resume :
    (tasks : List ℕ) (st : Tasks) (last i c : ℕ) (cs : List ℕ)
    → AllDifferent tasks
    → i < length tasks
    → suc (length cs) ≡ length tasks
    → (interrupts (at_task tasks i) st last (c ∷ cs)).0 ≡ c
unfolding interrupts
interrupts-resume tasks st last i c cs different h turns =
    let n = length tasks in
    subst (λ r. (interrupts r.1 r.2 r.0 cs).0 ≡ c) (sym (scheduler_lem tasks st i c h))
      (resume cs tasks (saved tasks st i c) (saved tasks st i c (get_or tasks (successor i n) 0))
        (successor i n) i c different (successor_lt i n h) h (omega (arith, turns))
        (around n i (length cs) h turns)
        (ap (λ b. if b then c else st (get_or tasks i 0)) (==-refl (get_or tasks i 0))) refl)
  where
    around : (n i m : ℕ) → i < n → suc m ≡ n → Leads n (successor i n) m i
    around n i m h turns = elim (ℕ_discrete (i + 1) n) [
      | yes last ↦
          let here : (i + 1 == n) ≡ true = ground arith in
          rw here (inl (omega (arith, turns, last)))
      | no other ↦
          let differ : (i + 1 == n) ≡ false = ground arith in rw differ (inr (omega (arith, turns)))
    ]

-- A task is taken in as long as there are fewer than 256, behind the others; after that it is
-- refused and nothing changes. So the table never outgrows its array.
add_task-bounded :
    (tm : TaskManager) (task : ℕ)
    → length tm.tasks ≤ max_tasks
    → let (added, tm') = add_task tm task in
      (length tm'.tasks ≤ max_tasks)
      × (tm'.tasks ≡ (if added then tm.tasks ++ task ∷ [] else tm.tasks))
      × (tm'.curr_task ≡ tm.curr_task)
unfolding add_task
add_task-bounded tm task room = elim (Bool-cases (leb max_tasks (length tm.tasks))) [
  | inl full ↦ rw full (room, refl, refl)
  | inr space ↦
      let fewer : length tm.tasks < max_tasks = ground arith in
      rw space (omega (arith, fewer, length-append tm.tasks (task ∷ [])), refl, refl)
]
