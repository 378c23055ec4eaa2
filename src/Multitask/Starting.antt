-- ===== src/Multitask/Starting.antt =====
-- A new task and the scheduler: where the task begins.
use pingu_os.Gdt.{code_segment_selector}
use pingu_os.Common.{
  Bool, ◌==◌, ◌≢◌, sym, subst, ℕ, suc, ◌+◌, ◌-◌, ◌<◌, ◌≡◌, inl, refl, ◌∙◌, ap, arith, true, false,
  List, [], ◌∷◌, ◌++◌, ==-refl, leb, if◌then◌else◌, length, get_or, length-append,
  get_or-append_right,
}
use pingu_os.Multitask.{Tasks, add_task, max_tasks}
use pingu_os.Multitask.Task.{CpuState, stack_size, cpu_state_size, first_state, new_task}
use pingu_os.Multitask.Rounds.{interrupts, AllDifferent, at_task, resume}

-- The place of a task's first state, at the end of its stack.
abbrev pub first_place : ℕ → ℕ
first_place task = task + stack_size - cpu_state_size

-- A state in which the processor begins at an entry point: with the code segment of the table, with
-- interrupts on, and with zeros in the general registers.
pub record BeginsAt (entrypoint : ℕ) (state : CpuState) : Type 0 where
  pub eip : state.eip ≡ entrypoint
  pub cs : state.cs ≡ 16
  pub eflags : state.eflags ≡ 0x202
  pub general : (state.eax ≡ 0) × (state.ebx ≡ 0) × (state.ecx ≡ 0) × (state.edx ≡ 0)
  pub pointers : (state.esi ≡ 0) × (state.edi ≡ 0) × (state.ebp ≡ 0)

first_state-BeginsAt :
    (held : CpuState) (entrypoint : ℕ) → BeginsAt entrypoint (first_state held entrypoint)
unfolding first_state code_segment_selector
first_state-BeginsAt held entrypoint = record {
  eip = refl;
  cs = refl;
  eflags = refl;
  general = (refl, refl, refl, refl);
  pointers = (refl, refl, refl);
}

-- What the constructor leaves at an address, in terms of a test of the address.
placed : (b : Bool) (state old : CpuState) → b ≡ true → (if b then state else old) ≡ state
placed true state old h = refl
placed false state old h = absurd (ground (arith, h))

spared : (b : Bool) (state old : CpuState) → b ≡ false → (if b then state else old) ≡ old
spared true state old h = absurd (ground (arith, h))
spared false state old h = refl

apart : (a b : ℕ) → a ≢ b → (a == b) ≡ false
apart a b other = ground arith

-- A task is constructed, while the task at the place `j` of the table runs, and added to fewer than
-- 256 tasks; it is none of these, and none of them is twice in the table. It is taken in, and at
-- the interrupt that comes as many interrupts later as there are tasks from `j` on, the scheduler
-- goes on with the state at the end of the new task's stack, no other task being added meanwhile.
-- In that state `eip` is the entry point, `cs` is 16, which selects the code segment, `eflags` is
-- 0x202, and the registers from `eax` to `ebp` are 0. The constructor writes no other state.
pub new_task-starts :
    (tasks : List ℕ) (st : Tasks) (memory : ℕ → CpuState) (task entrypoint last j c : ℕ)
    (cs : List ℕ)
    → AllDifferent (tasks ++ task ∷ [])
    → j < length tasks
    → length tasks < max_tasks
    → j + suc (length cs) ≡ length tasks
    → let (memory', st') = new_task memory st task entrypoint in
      let (added, tm) = add_task (at_task tasks j) task in
      let (cpu_state, tm', st'') = interrupts tm st' last (c ∷ cs) in
      (added ≡ true)
      × (cpu_state ≡ first_place task)
      × BeginsAt entrypoint (memory' cpu_state)
      × ((a : ℕ) → a ≢ first_place task → memory' a ≡ memory a)
unfolding add_task interrupts new_task
new_task-starts tasks st memory task entrypoint last j c cs different running room turns =
    let tasks' = tasks ++ task ∷ [] in
    let st' = (new_task memory st task entrypoint).1 in
    let size : length tasks' ≡ length tasks + 1 = length-append tasks (task ∷ []) in
    let at : length tasks + 0 ≡ length tasks = omega arith in
    let there : get_or tasks' (length tasks) 0 ≡ task =
      ap (λ n. get_or tasks' n 0) (omega arith) ∙ get_or-append_right tasks (task ∷ []) 0 0 in
    let held : st' (get_or tasks' (length tasks) 0) ≡ first_place task =
      ap st' there ∙ ap (λ b. if b then first_place task else st task) (==-refl task) in
    let not_full : leb max_tasks (length tasks) ≡ false = ground arith in
    let first = first_state (memory (first_place task)) entrypoint in
    let turn : (interrupts (at_task tasks' j) st' last (c ∷ cs)).0 ≡ first_place task =
      resume (c ∷ cs) tasks' st' (st' (get_or tasks' j 0)) j (length tasks) (first_place task)
        different (omega (arith, size, running)) (omega (arith, size)) (omega (arith, size, turns))
        (inl turns) held refl in
    rw not_full (
      refl,
      turn,
      subst (λ a. BeginsAt entrypoint ((new_task memory st task entrypoint).0 a)) (sym turn)
          (subst (BeginsAt entrypoint)
            (sym (
              placed (first_place task == first_place task) first (memory (first_place task))
                (==-refl (first_place task))))
            (first_state-BeginsAt (memory (first_place task)) entrypoint)),
      λ a other. spared (a == first_place task) first (memory a) (apart a (first_place task) other),
    )
