-- ===== src/Pci.antt =====
-- src/hardware_communication/pci.cpp: the registers of PCI functions, and the drivers for them.
pub mod Config
pub mod Bars
pub mod Drivers
pub mod Selection
mod Examples
use Prim.Native.Nat.{bit_and, bit_or}
use pingu_os.Common.{
  ℕ, zero, suc, ◌+◌, ◌-◌, ◌*◌, ◌/◌, ◌%◌, ◌^◌, Bool, true, false, not, ◌&&◌, [], ◌∷◌, ◌++◌, ◌==◌,
  leb, if◌then◌else◌, shr, sub32,
}
use pingu_os.Common.Bytes.{Bytes, codes}
use pingu_os.Port.{Ports}

abbrev pub command_port : ℕ
command_port = 0xCF8

abbrev pub data_port : ℕ
data_port = 0xCFC

abbrev pub num_bus : ℕ
num_bus = 8

abbrev pub num_devices : ℕ
num_devices = 32

abbrev pub num_bars : ℕ
num_bars = 6

abbrev pub vendor_id_offset : ℕ
vendor_id_offset = 0x00

abbrev pub device_id_offset : ℕ
device_id_offset = 0x02

abbrev pub command_offset : ℕ
command_offset = 0x04

abbrev pub status_offset : ℕ
status_offset = 0x06

abbrev pub revision_offset : ℕ
revision_offset = 0x08

abbrev pub interface_id_offset : ℕ
interface_id_offset = 0x09

abbrev pub subclass_id_offset : ℕ
subclass_id_offset = 0x0A

abbrev pub class_id_offset : ℕ
class_id_offset = 0x0B

abbrev pub header_type_offset : ℕ
header_type_offset = 0x0E

abbrev pub bar_start_offset : ℕ
bar_start_offset = 0x10

abbrev pub interrupt_offset : ℕ
interrupt_offset = 0x3C

-- `BaseAddressRegisterType`: memory mapped, or input and output.
pub data BarType : Type 0 where
  mm io : BarType

-- `MemoryMapMode`; 3 has no name.
pub data MemoryMapMode : Type 0 where
  b32 b20 b64 unnamed : MemoryMapMode

pub record BaseAddressRegister : Type 0 where
  pub prefetchable : Bool
  pub addr : ℕ
  pub size : ℕ
  pub type : BarType

-- A function of a device on a bus.
pub record Function : Type 0 where
  pub bus : ℕ
  pub device : ℕ
  pub function : ℕ

pub record PciDeviceDescriptor : Type 0 where
  pub type : BarType
  pub port_base : ℕ
  pub interrupt : ℕ
  pub memory_base : ℕ
  pub memory_size : ℕ
  pub place : Function
  pub vendor_id : ℕ
  pub device_id : ℕ
  pub status : ℕ
  pub command : ℕ
  pub class_id : ℕ
  pub subclass_id : ℕ
  pub interface_id : ℕ
  pub revision : ℕ

unfoldable pub compute_id : Function → ℕ → ℕ
compute_id f register_offset =
    bit_or
      (bit_or (bit_or (bit_or (2 ^ 16 * f.bus) (2 ^ 11 * f.device)) (2 ^ 8 * f.function))
        (bit_and register_offset 0xFC))
      0x80000000

-- `~x` of 32 bits.
abbrev pub complement : ℕ → ℕ
complement x = 2 ^ 32 - 1 - x

-- `~(mask & ~0x0F) + 1`
unfoldable pub size_of_mask : ℕ → ℕ
size_of_mask mask = (complement (bit_and mask 0xFFFFFFF0) + 1) % 2 ^ 32

abbrev pub mode_of : ℕ → MemoryMapMode
mode_of bar_value =
    let mode = bit_and (shr bar_value 1) 0x3 in
    if mode == 0 then b32 else (if mode == 1 then b20 else (if mode == 2 then b64 else unnamed))

abbrev pub above_4gb : Bytes
above_4gb = codes "Warning: 64-bit BAR >4GB, skipping..." ++ 0x0A ∷ []

abbrev pub may_exceed_4gb : Bytes
may_exceed_4gb =
    codes "Warning: 64-bit BAR size may exceed 4GB; using low approx on 32-bit." ++ 0x0A ∷ []

module _ {P : Type 0} (ports : Ports P) where
  unfoldable pub read : P → Function → ℕ → ℕ × P
  read p f register_offset =
      let (result, p') =
        ports.read (ports.write p command_port (compute_id f register_offset)) data_port in
      (shr result (bit_and register_offset 2 * 8), p')

  unfoldable pub write : P → Function → ℕ → ℕ → P
  write p f register_offset value =
      ports.write (ports.write p command_port (compute_id f register_offset)) data_port value

  unfoldable pub device_has_functions : P → ℕ → ℕ → Bool × P
  device_has_functions p bus device =
      let place : Function = record { bus = bus; device = device; function = 0 } in
      let (header, p') = read p place header_type_offset in (not (bit_and header 0x80 == 0), p')

  -- `type` is not set before a base address register is read.
  unfoldable pub get_device_descriptor : BarType → P → Function → PciDeviceDescriptor × P
  get_device_descriptor unset p f =
      let (vendor_id, p₁) = read p f vendor_id_offset in
      let (device_id, p₂) = read p₁ f device_id_offset in
      let (class_id, p₃) = read p₂ f class_id_offset in
      let (subclass_id, p₄) = read p₃ f subclass_id_offset in
      let (interface_id, p₅) = read p₄ f interface_id_offset in
      let (status, p₆) = read p₅ f status_offset in
      let (command, p₇) = read p₆ f command_offset in
      let (revision, p₈) = read p₇ f revision_offset in
      let (interrupt, p₉) = read p₈ f interrupt_offset in
      (
        record {
          type = unset;
          port_base = 0;
          interrupt = interrupt;
          memory_base = 0;
          memory_size = 0;
          place = f;
          vendor_id = vendor_id % 2 ^ 16;
          device_id = device_id % 2 ^ 16;
          status = status % 2 ^ 16;
          command = command % 2 ^ 16;
          class_id = class_id % 2 ^ 8;
          subclass_id = subclass_id % 2 ^ 8;
          interface_id = interface_id % 2 ^ 8;
          revision = revision % 2 ^ 8;
        },
        p₉,
      )

  -- All ones are written to a register, and what can be set is read back.
  unfoldable pub probe : P → Function → ℕ → ℕ → ℕ × P
  probe p f offset value =
      let (mask, p') = read (write p f offset 0xFFFFFFFF) f offset in
      (mask, write p' f offset value)

  -- A register of 64 bits: the upper half is looked at too. Beside the register stands what is printed.
  unfoldable pub wide_register :
      P → Function → ℕ → ℕ → ℕ → BaseAddressRegister → BaseAddressRegister × Bytes × P
  wide_register p f bar_offset bar_value size_mask result =
      let (bar_hi_addr, p₁) = read p f (bar_offset + 4) in
      let (size_mask_high, p₂) = probe p₁ f (bar_offset + 4) bar_hi_addr in
      if not (bar_hi_addr == 0) then (record result { addr = 0; size = 0 }, above_4gb, p₁) else (
        record result { addr = bit_and bar_value 0xFFFFFFF0; size = size_of_mask size_mask },
        if size_mask_high == 0xFFFFFFFF then [] else may_exceed_4gb,
        p₂,
      )

  unfoldable pub memory_register :
      P
      → Function
      → ℕ
      → ℕ
      → ℕ
      → BaseAddressRegister
      → MemoryMapMode
      → BaseAddressRegister × Bytes × P
  memory_register p f bar_offset bar_value size_mask result b64 =
      wide_register p f bar_offset bar_value size_mask result
  memory_register p f bar_offset bar_value size_mask result unnamed = (result, [], p)
  memory_register p f bar_offset bar_value size_mask result b32 =
      (record result { addr = bit_and bar_value 0xFFFFFFF0; size = size_of_mask size_mask }, [], p)
  memory_register p f bar_offset bar_value size_mask result b20 =
      (record result { addr = bit_and bar_value 0xFFFFFFF0; size = size_of_mask size_mask }, [], p)

  -- A register that is there; `type` of the other case is not set in the source.
  unfoldable pub base_address : P → Function → ℕ → BaseAddressRegister × Bytes × P
  base_address p f bar_offset =
      let (bar_value, p₁) = read p f bar_offset in
      let (size_mask, p₂) = probe p₁ f bar_offset bar_value in
      if bit_and bar_value 0x01 == 0
      then memory_register p₂ f bar_offset bar_value size_mask
          (record {
            prefetchable = bit_and (shr bar_value 3) 0x01 == 0x01;
            addr = 0;
            size = 0;
            type = mm;
          })
          (mode_of bar_value)
      else (
        record { prefetchable = false; addr = bit_and bar_value 0xFFFFFFFC; size = 0; type = io },
        [],
        p₁,
      )

  unfoldable pub get_base_address_register :
      BarType → P → Function → ℕ → BaseAddressRegister × Bytes × P
  get_base_address_register unset p f bar_num =
      let (header, p₁) = read p f header_type_offset in
      let max_bars = 6 - 4 * bit_and header 0x7F in
      if leb max_bars bar_num
      then (record { prefetchable = false; addr = 0; size = 0; type = unset }, [], p₁)
      else base_address p₁ f (bar_start_offset + 4 * bar_num)
