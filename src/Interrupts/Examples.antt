-- ===== src/Interrupts/Examples.antt =====
-- Tests: a manager with a keyboard handler at 0x5000.
use pingu_os.Common.{ℕ, ◌+◌, ◌≡◌, none, [], ◌++◌, replicate}
use pingu_os.Interrupts.{InterruptManager, handler}
use pingu_os.Interrupts.Dispatch.{outcome, acknowledgements, handler-dispatch}

abbrev empty : InterruptManager
empty = record {
  handlers = replicate 256 none;
  task_manager = record { tasks = []; curr_task = none };
  tasks = λ task. 0;
  writes = [];
  printed = [];
}

abbrev echo : ℕ → ℕ → ℕ
echo h esp = esp + h

handler-dispatch_example :
    let (esp', im') = handler echo empty 0x2C 0x900 in
    (esp' ≡ outcome echo empty 0x2C 0x900)
    × (im'.writes ≡ empty.writes ++ acknowledgements 0x2C)
    × (im'.handlers ≡ empty.handlers)
handler-dispatch_example = handler-dispatch echo empty 0x2C 0x900
