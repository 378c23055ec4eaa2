-- ===== src/Multitask.antt =====
-- `TaskManager` of src/multitask.cpp: the tasks and the round robin of its scheduler.
pub mod Rounds
pub mod Task
pub mod Starting
pub mod Examples
use pingu_os.Common.{
  ℕ, zero, suc, ◌+◌, ◌%◌, Bool, true, false, Option, none, some, List, [], ◌∷◌, ◌++◌, ◌==◌, leb,
  if◌then◌else◌, length, get_or,
}

-- `m_num_tasks` is the length of the list of task pointers; `m_curr_task` is `none` for -1.
pub record TaskManager : Type 0 where
  pub tasks : List ℕ
  pub curr_task : Option ℕ

-- The `m_cpu_state` of the task at an address; what a task is besides is not looked at.
abbrev pub Tasks : Type 0
Tasks = ℕ → ℕ

abbrev pub max_tasks : ℕ
max_tasks = 256

unfoldable pub task_manager : TaskManager
task_manager = record { tasks = []; curr_task = none }

unfoldable pub add_task : TaskManager → ℕ → Bool × TaskManager
add_task tm task =
    if leb max_tasks (length tm.tasks)
    then (false, tm)
    else (true, record tm { tasks = tm.tasks ++ task ∷ [] })

-- The interrupted task's state is saved, if there is one.
unfoldable pub save_state : Option ℕ → List ℕ → Tasks → ℕ → Tasks
save_state none tasks st cpu_state = st
save_state (some curr) tasks st cpu_state =
    λ task. if task == get_or tasks curr 0 then cpu_state else st task

-- `++m_curr_task`, and back to the start where it reaches the number of tasks.
unfoldable pub next_task : Option ℕ → ℕ → ℕ
next_task none num_tasks = if leb num_tasks 0 then 0 % num_tasks else 0
next_task (some curr) num_tasks =
    if leb num_tasks (curr + 1) then (curr + 1) % num_tasks else curr + 1

-- The state to go on with, which the source returns, and what has changed.
unfoldable pub scheduler : TaskManager → Tasks → ℕ → ℕ × TaskManager × Tasks
scheduler tm st cpu_state =
    let st' = save_state tm.curr_task tm.tasks st cpu_state in
    let curr = next_task tm.curr_task (length tm.tasks) in
    if leb (length tm.tasks) 0
    then (cpu_state, tm, st)
    else (st' (get_or tm.tasks curr 0), record tm { curr_task = some curr }, st')
