-- ===== src/Multitask/Task.antt =====
-- `Task` of src/multitask.cpp: the processor state that a new task starts from.
use pingu_os.Common.{ℕ, ◌+◌, ◌-◌, ◌==◌, if◌then◌else◌}
use pingu_os.Gdt.{code_segment_selector}
use pingu_os.Multitask.{Tasks}

-- Words of 32 bits.
pub record CpuState : Type 0 where
  pub eax : ℕ
  pub ebx : ℕ
  pub ecx : ℕ
  pub edx : ℕ
  pub esi : ℕ
  pub edi : ℕ
  pub ebp : ℕ
  pub error : ℕ
  pub eip : ℕ
  pub cs : ℕ
  pub eflags : ℕ
  pub esp : ℕ
  pub ss : ℕ

abbrev pub stack_size : ℕ
stack_size = 4096

abbrev pub cpu_state_size : ℕ
cpu_state_size = 52

-- What is not assigned keeps what the stack held.
unfoldable pub first_state : CpuState → ℕ → CpuState
first_state held entrypoint = record held {
  eax = 0;
  ebx = 0;
  ecx = 0;
  edx = 0;
  esi = 0;
  edi = 0;
  ebp = 0;
  eip = entrypoint;
  cs = code_segment_selector;
  eflags = 0x202;
}

-- The constructor, of a task at an address, whose stack is its first field: the state goes to the
-- end of the stack, and `m_cpu_state` points to it.
unfoldable pub new_task : (ℕ → CpuState) → Tasks → ℕ → ℕ → (ℕ → CpuState) × Tasks
unfolding first_state
new_task memory st task entrypoint =
    let at = task + stack_size - cpu_state_size in
    (
      λ a. if a == at then first_state (memory at) entrypoint else memory a,
      λ t. if t == task then at else st t,
    )
