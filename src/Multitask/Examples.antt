-- ===== src/Multitask/Examples.antt =====
-- Tests: the scheduler on three tasks.
use pingu_os.Common.{◌≢◌, true, ℕ, zero, suc, ◌+◌, ◌≡◌, refl, arith, List, [], ◌∷◌}
use pingu_os.Multitask.{Tasks, add_task}
use pingu_os.Multitask.Task.{CpuState, new_task}
use pingu_os.Multitask.Rounds.{interrupts, at_task, AllDifferent, interrupts-resume}
use pingu_os.Multitask.Starting.{first_place, BeginsAt, new_task-starts}

abbrev three : List ℕ
three = 0x1000 ∷ 0x3000 ∷ 0x2000 ∷ []

three-AllDifferent : AllDifferent three
three-AllDifferent zero zero h h' ne = absurd (ne refl)
three-AllDifferent zero (suc zero) h h' ne = λ same. omega (arith, same)
three-AllDifferent zero (suc (suc zero)) h h' ne = λ same. omega (arith, same)
three-AllDifferent (suc zero) zero h h' ne = λ same. omega (arith, same)
three-AllDifferent (suc zero) (suc zero) h h' ne = absurd (ne refl)
three-AllDifferent (suc zero) (suc (suc zero)) h h' ne = λ same. omega (arith, same)
three-AllDifferent (suc (suc zero)) zero h h' ne = λ same. omega (arith, same)
three-AllDifferent (suc (suc zero)) (suc zero) h h' ne = λ same. omega (arith, same)
three-AllDifferent (suc (suc zero)) (suc (suc zero)) h h' ne = absurd (ne refl)
three-AllDifferent (suc (suc (suc a))) b h h' ne = absurd (omega (arith, h))
three-AllDifferent zero (suc (suc (suc b))) h h' ne = absurd (omega (arith, h'))
three-AllDifferent (suc zero) (suc (suc (suc b))) h h' ne = absurd (omega (arith, h'))
three-AllDifferent (suc (suc zero)) (suc (suc (suc b))) h h' ne = absurd (omega (arith, h'))

-- The second task is interrupted at 0x500, and is resumed there after the third and the first.
interrupts-resume_example :
    (interrupts (at_task three 1) (λ task. task + 4096) 0 (0x500 ∷ 0x600 ∷ 0x700 ∷ [])).0 ≡ 0x500
interrupts-resume_example =
    interrupts-resume three (λ task. task + 4096) 0 1 0x500 (0x600 ∷ 0x700 ∷ []) three-AllDifferent
      (omega arith) refl

abbrev two : List ℕ
two = 0x1000 ∷ 0x3000 ∷ []

abbrev untouched : ℕ → CpuState
untouched a = record {
  eax = 1;
  ebx = 1;
  ecx = 1;
  edx = 1;
  esi = 1;
  edi = 1;
  ebp = 1;
  error = 1;
  eip = 1;
  cs = 1;
  eflags = 1;
  esp = 1;
  ss = 1;
}

abbrev states : Tasks
states = λ task. task + 4096

-- A third task, which starts at 0x8000, is added while the first of two runs, and has its turn
-- after the second.
new_task-starts_example :
    let (memory', st') = new_task untouched states 0x2000 0x8000 in
    let (added, tm) = add_task (at_task two 0) 0x2000 in
    let (cpu_state, tm', st'') = interrupts tm st' 0 (0x500 ∷ 0x600 ∷ []) in
    (added ≡ true)
    × (cpu_state ≡ first_place 0x2000)
    × BeginsAt 0x8000 (memory' cpu_state)
    × ((a : ℕ) → a ≢ first_place 0x2000 → memory' a ≡ untouched a)
new_task-starts_example =
    new_task-starts two states untouched 0x2000 0x8000 0 0 0x500 (0x600 ∷ []) three-AllDifferent
      (omega arith) (omega arith) refl
