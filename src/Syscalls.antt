-- ===== src/Syscalls.antt =====
-- `SyscallHandler` of src/syscalls.cpp.
use pingu_os.Common.{ℕ, ◌+◌, ◌%◌, ◌^◌, ◌==◌, if◌then◌else◌}
use pingu_os.Common.Bytes.{Bytes}
use pingu_os.Kernel.{Console, printf}
use pingu_os.Multitask.Task.{CpuState}

-- The number that the handler is registered for, a `uint8_t`.
unfoldable pub syscall_number : ℕ → ℕ
syscall_number interrupt_number = (interrupt_number + 0x20) % 2 ^ 8

-- The state that was pushed stands at `esp`; `string_at` gives the C string at an address. The stack
-- pointer is returned as it is.
unfoldable pub handle_syscall : (ℕ → CpuState) → (ℕ → Bytes) → Console → ℕ → ℕ × Console
handle_syscall memory string_at console esp =
    let cpu = memory esp in
    let printed = printf console (string_at cpu.ebx) in
    (esp, if cpu.eax == 0x04 then printed else console)
