-- ===== src/Interrupts.antt =====
-- `InterruptManager` and `InterruptHandler` of src/hardware_communication/interrupts.cpp.
pub mod Gates
pub mod Dispatch
pub mod Examples
use Prim.Native.Nat.{bit_and, bit_or}
use pingu_os.Common.{
  ℕ, zero, suc, ◌+◌, ◌*◌, ◌/◌, ◌%◌, ◌^◌, Bool, true, false, not, ◌&&◌, Option, none, some, List, [],
  ◌∷◌, ◌++◌, ◌==◌, leb, ltb, if◌then◌else◌, set, get_or, replicate, shr,
}
use pingu_os.Common.Bytes.{Bytes}
use pingu_os.Multitask.{TaskManager, Tasks, scheduler}

pub record GateDescriptor : Type 0 where
  pub handler_addr_lo : ℕ
  pub gdt_code_segment_selector : ℕ
  pub reserved : ℕ
  pub access : ℕ
  pub handler_addr_hi : ℕ

abbrev pub idt_desc_present : ℕ
idt_desc_present = 0x80

abbrev pub idt_interrupt_gate : ℕ
idt_interrupt_gate = 0xE

-- The descriptor that `set_interrupt_descriptor_table_entry` stores.
unfoldable pub gate : ℕ → ℕ → ℕ → ℕ → GateDescriptor
gate code_segment handler privilege_level descriptor_type = record {
  handler_addr_lo = bit_and handler 0xFFFF;
  gdt_code_segment_selector = code_segment;
  reserved = 0;
  access = bit_or (bit_or idt_desc_present (2 ^ 5 * bit_and privilege_level 3)) descriptor_type;
  handler_addr_hi = bit_and (shr handler 16) 0xFFFF;
}

unfoldable pub set_entry : List GateDescriptor → ℕ → ℕ → ℕ → ℕ → ℕ → List GateDescriptor
set_entry table interrupt_number code_segment handler privilege_level descriptor_type =
    set table interrupt_number (gate code_segment handler privilege_level descriptor_type)

-- The interrupts for which the constructor enters a stub.
abbrev pub entered : List ℕ
entered = 0x20 ∷ 0x21 ∷ 0x2B ∷ 0x2C ∷ 0x2E ∷ 0x80 ∷ []

abbrev pub enter_all : List GateDescriptor → ℕ → (ℕ → ℕ) → List ℕ → List GateDescriptor
enter_all table code_segment stub [] = table
enter_all table code_segment stub (n ∷ ns) =
    enter_all (set_entry table n code_segment (stub n) 0 idt_interrupt_gate) code_segment stub ns

-- The table as the constructor fills it, with the addresses of the assembly stubs.
unfoldable pub descriptor_table : ℕ → ℕ → (ℕ → ℕ) → List GateDescriptor
unfolding set_entry
descriptor_table code_segment ignore stub =
    enter_all (replicate 256 (gate code_segment ignore 0 idt_interrupt_gate)) code_segment stub
      entered

abbrev pub pic_master_cmd : ℕ
pic_master_cmd = 0x20

abbrev pub pic_master_data : ℕ
pic_master_data = 0x21

abbrev pub pic_slave_cmd : ℕ
pic_slave_cmd = 0xA0

abbrev pub pic_slave_data : ℕ
pic_slave_data = 0xA1

-- The port writes of the constructor, in order.
unfoldable pub pic_setup : List (ℕ × ℕ)
pic_setup =
    (pic_master_cmd, 0x11)
    ∷ (pic_slave_cmd, 0x11)
    ∷ (pic_master_data, 0x20)
    ∷ (pic_slave_data, 0x28)
    ∷ (pic_master_data, 0x04)
    ∷ (pic_slave_data, 0x02)
    ∷ (pic_master_data, 0x01)
    ∷ (pic_slave_data, 0x01)
    ∷ (pic_master_data, 0x00)
    ∷ (pic_slave_data, 0x00)
    ∷ []

-- The manager, with what hangs on it: the tasks, and what has been written to the ports and
-- printed so far. A handler is its address.
pub record InterruptManager : Type 0 where
  pub handlers : List (Option ℕ)
  pub task_manager : TaskManager
  pub tasks : Tasks
  pub writes : List (ℕ × ℕ)
  pub printed : List Bytes

-- The constructor of `InterruptHandler`.
unfoldable pub register_handler : InterruptManager → ℕ → ℕ → InterruptManager
register_handler im number this = record im { handlers = set im.handlers number (some this) }

abbrev pub is_handler : Option ℕ → ℕ → Bool
is_handler none this = false
is_handler (some other) this = other == this

-- Its destructor.
unfoldable pub remove_handler : InterruptManager → ℕ → ℕ → InterruptManager
remove_handler im number this =
    if is_handler (get_or im.handlers number none) this
    then record im { handlers = set im.handlers number none }
    else im

-- `"0123456789ABCDEF"[n]`
abbrev pub hex : ℕ → ℕ
hex n = if ltb n 10 then b'0' + n else 55 + n

-- "UNHANDLED INTERRUPT 0x00"
abbrev pub unhandled : Bytes
unhandled =
    b'U' ∷ b'N' ∷ b'H' ∷ b'A' ∷ b'N' ∷ b'D' ∷ b'L' ∷ b'E' ∷ b'D' ∷ b' ' ∷ b'I' ∷ b'N' ∷ b'T' ∷ b'E'
    ∷ b'R' ∷ b'R' ∷ b'U' ∷ b'P' ∷ b'T' ∷ b' ' ∷ b'0' ∷ b'x' ∷ b'0' ∷ b'0' ∷ []

-- The digits go to the places 12 and 13.
unfoldable pub message : ℕ → Bytes
message number =
    set (set unhandled 12 (hex (bit_and (shr number 4) 0xF))) 13 (hex (bit_and number 0xF))

-- The end-of-interrupt writes, behind those before.
unfoldable pub send_eoi : ℕ → List (ℕ × ℕ) → List (ℕ × ℕ)
send_eoi number before =
    if leb 0x20 number && ltb number 0x30
    then (if leb 0x28 number
        then before ++ (pic_slave_cmd, 0x20) ∷ (pic_master_cmd, 0x20) ∷ []
        else before ++ (pic_master_cmd, 0x20) ∷ [])
    else before

unfoldable pub switch_task : InterruptManager → ℕ → ℕ → ℕ × InterruptManager
switch_task im number esp =
    let (esp', tm, st) = scheduler im.task_manager im.tasks esp in
    if number == 0x20 then (esp', record im { task_manager = tm; tasks = st }) else (esp, im)

-- `handle` is what a handler's `handle_interrupt` returns for a stack pointer; what handlers do
-- besides is not part of the manager.
module _ (handle : ℕ → ℕ → ℕ) where
  unfoldable pub call_handler : InterruptManager → Option ℕ → ℕ → ℕ → ℕ × InterruptManager
  call_handler im (some h) number esp = (handle h esp, im)
  call_handler im none number esp =
      if not (number == 0x20)
      then (esp, record im { printed = im.printed ++ message number ∷ [] })
      else (esp, im)

  -- `handler`: the stack pointer to go on with.
  unfoldable pub handler : InterruptManager → ℕ → ℕ → ℕ × InterruptManager
  handler im number esp =
      let (esp₁, im₁) = call_handler im (get_or im.handlers number none) number esp in
      let (esp₂, im₂) = switch_task im₁ number esp₁ in
      (esp₂, record im₂ { writes = send_eoi number im₂.writes })

  -- `handleInterrupt`, on the active manager.
  unfoldable pub handle_interrupt : Option InterruptManager → ℕ → ℕ → ℕ × Option InterruptManager
  handle_interrupt none number esp = (esp, none)
  handle_interrupt (some im) number esp =
      let (esp', im') = handler im number esp in (esp', some im')

-- The address of the active manager, and whether the processor takes interrupts.
pub record Active : Type 0 where
  pub manager : Option ℕ
  pub enabled : Bool

unfoldable pub deactivate : Active → ℕ → Active
deactivate a this =
    if is_handler a.manager this then record { manager = none; enabled = false } else a

-- Only the manager that is active is deactivated first.
unfoldable pub deactivate_active : Active → Option ℕ → Active
deactivate_active a none = a
deactivate_active a (some other) = deactivate a other

unfoldable pub activate : Active → ℕ → Active
activate a this = record (deactivate_active a a.manager) { manager = some this; enabled = true }
