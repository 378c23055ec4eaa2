-- ===== src/Vga.antt =====
-- `VideoGraphicsArray` of src/drivers/vga.cpp.
pub mod Places
pub mod Pixels
pub mod Examples
use Prim.Native.Nat.{bit_and, bit_or}
use pingu_os.Common.{
  ℕ, zero, suc, ◌+◌, ◌-◌, ◌*◌, ◌/◌, ◌%◌, ◌^◌, Bool, true, false, not, ◌&&◌, ◌||◌, List, [], ◌∷◌,
  ◌++◌, ◌==◌, leb, ltb, if◌then◌else◌, set, get_or, take, drop, add32, shr,
}
use pingu_os.Common.Bytes.{Bytes}
use pingu_os.Port.{Ports}

-- The ports, and the memory, which the frame buffer is a part of.
pub record Screen (P : Type 0) : Type 0 where
  pub ports : P
  pub memory : ℕ → ℕ

pub record Rgb : Type 0 where
  pub r : ℕ
  pub g : ℕ
  pub b : ℕ

-- `a < b` and `a <= b` for `int32_t`, as words.
abbrev pub signed_lt : ℕ → ℕ → Bool
signed_lt a b = ltb ((a + 2 ^ 31) % 2 ^ 32) ((b + 2 ^ 31) % 2 ^ 32)

abbrev pub signed_le : ℕ → ℕ → Bool
signed_le a b = leb ((a + 2 ^ 31) % 2 ^ 32) ((b + 2 ^ 31) % 2 ^ 32)

unfoldable pub supports_mode : ℕ → ℕ → ℕ → Bool
supports_mode width height color_depth = (width == 320) && (height == 200) && (color_depth == 8)

unfoldable pub get_color_index : Rgb → ℕ
get_color_index color =
    let color_int = bit_or (bit_or (2 ^ 16 * color.r) (2 ^ 8 * color.g)) color.b in
    if color_int == 0x000000
    then 0x00
    else (if color_int == 0x0000A8
        then 0x01
        else (if color_int == 0x00A800
            then 0x02
            else (if color_int == 0xA80000
                then 0x04
                else (if color_int == 0xFFFFFF then 0x3F else 0x00))))

-- The frame buffer that the graphics controller's register 6 names.
abbrev pub segment : ℕ → ℕ
segment register =
    let segment_num = bit_and (shr register 2) 0x03 in
    if segment_num == 1
    then 0xA0000
    else (if segment_num == 2 then 0xB0000 else (if segment_num == 3 then 0xB8000 else 0x00000))

-- `g_320x200x256`: the miscellaneous register, 5 of the sequencer, 25 of the CRT controller, 9 of
-- the graphics controller and 21 of the attribute controller.
abbrev pub mode_320x200x256 : Bytes
mode_320x200x256 =
    0x63 ∷ 0x03 ∷ 0x01 ∷ 0x0F ∷ 0x00 ∷ 0x0E ∷ 0x5F ∷ 0x4F ∷ 0x50 ∷ 0x82 ∷ 0x54 ∷ 0x80 ∷ 0xBF ∷ 0x1F
    ∷ 0x00 ∷ 0x41 ∷ 0x00 ∷ 0x00 ∷ 0x00 ∷ 0x00 ∷ 0x00 ∷ 0x00 ∷ 0x9C ∷ 0x0E ∷ 0x8F ∷ 0x28 ∷ 0x40
    ∷ 0x96 ∷ 0xB9 ∷ 0xA3 ∷ 0xFF ∷ 0x00 ∷ 0x00 ∷ 0x00 ∷ 0x00 ∷ 0x00 ∷ 0x40 ∷ 0x05 ∷ 0x0F ∷ 0xFF
    ∷ 0x00 ∷ 0x01 ∷ 0x02 ∷ 0x03 ∷ 0x04 ∷ 0x05 ∷ 0x06 ∷ 0x07 ∷ 0x08 ∷ 0x09 ∷ 0x0A ∷ 0x0B ∷ 0x0C
    ∷ 0x0D ∷ 0x0E ∷ 0x0F ∷ 0x41 ∷ 0x00 ∷ 0x0F ∷ 0x00 ∷ 0x00 ∷ []

module _ {P : Type 0} (io : Ports P) where
  -- Registers from `i` on, each by its index port and its data port.
  unfoldable pub write_indexed : P → ℕ → ℕ → ℕ → Bytes → P
  write_indexed p index_port data_port i [] = p
  write_indexed p index_port data_port i (value ∷ values) =
      write_indexed (io.write (io.write p index_port i) data_port value) index_port data_port
        (i + 1) values

  -- The registers of the attribute controller, with a read in front of each.
  unfoldable pub write_attributes : P → ℕ → Bytes → P
  write_attributes p i [] = p
  write_attributes p i (value ∷ values) =
      write_attributes (io.write (io.write (io.read p 0x3C1).1 0x3C0 i) 0x3C0 value) (i + 1) values

  -- A register of the CRT controller, read, changed and written back.
  unfoldable pub change_crtc : P → ℕ → (ℕ → ℕ) → P
  change_crtc p index change =
      let (value, p') = io.read (io.write p 0x3D4 index) 0x3D5 in io.write p' 0x3D5 (change value)

  -- The registers of the CRT controller as they are written: the lock is taken off.
  unfoldable pub unlocked : Bytes → Bytes
  unlocked crtc =
      let crtc' = set crtc 0x03 (bit_or (get_or crtc 0x03 0) 0x80) in
      set crtc' 0x11 (bit_and (get_or crtc' 0x11 0) 0x7F)

  unfoldable pub write_registers : P → Bytes → P
  write_registers p registers =
      let p₁ = io.write p 0x3C2 (get_or registers 0 0) in
      let p₂ = write_indexed p₁ 0x3C4 0x3C5 0 (take 5 (drop 1 registers)) in
      let p₃ = change_crtc p₂ 0x03 (λ value. bit_or value 0x80) in
      let p₄ = change_crtc p₃ 0x11 (λ value. bit_and value 0x7F) in
      let p₅ = write_indexed p₄ 0x3D4 0x3D5 0 (unlocked (take 25 (drop 6 registers))) in
      let p₆ = write_indexed p₅ 0x3CE 0x3CF 0 (take 9 (drop 31 registers)) in
      let p₇ = write_attributes p₆ 0 (take 21 (drop 40 registers)) in
      io.write (io.read p₇ 0x3DA).1 0x3C0 0x20

  unfoldable pub set_mode : P → ℕ → ℕ → ℕ → Bool × P
  set_mode p width height color_depth =
      if not (supports_mode width height color_depth)
      then (false, p)
      else (true, write_registers p mode_320x200x256)

  unfoldable pub get_frame_buffer_segment : P → ℕ × P
  get_frame_buffer_segment p =
      let (register, p') = io.read (io.write p 0x3CE 0x06) 0x3CF in (segment register, p')

  -- A byte at the address of the pixel; nothing off the screen.
  unfoldable pub put_index : Screen P → ℕ → ℕ → ℕ → Screen P
  put_index s x y color_index =
      let (start, ports) = get_frame_buffer_segment s.ports in
      let pixel_addr = add32 (add32 start (320 * y)) x in
      if signed_lt x 0 || signed_le 320 x || signed_lt y 0 || signed_le 200 y then s else record {
        ports = ports;
        memory = λ a. if a == pixel_addr then color_index else s.memory a;
      }

  unfoldable pub put_pixel : Screen P → ℕ → ℕ → Rgb → Screen P
  put_pixel s x y color = put_index s x y (get_color_index color)

  -- The inner loop, with `rounds` pixels to go, and the outer, with `rows` rows.
  unfoldable pub fill_row : ℕ → Screen P → ℕ → ℕ → Rgb → Screen P
  fill_row zero s x y color = s
  fill_row (suc rounds) s x y color = fill_row rounds (put_pixel s x y color) (x + 1) y color

  unfoldable pub fill_rows : ℕ → Screen P → ℕ → ℕ → ℕ → Rgb → Screen P
  fill_rows zero s x y columns color = s
  fill_rows (suc rows) s x y columns color =
      fill_rows rows (fill_row columns s x y color) x (y + 1) columns color

  -- The ends are unsigned sums, and the loops compare with them as unsigned.
  unfoldable pub fill_rectangle : Screen P → ℕ → ℕ → ℕ → ℕ → Rgb → Screen P
  fill_rectangle s x y w h color = fill_rows (add32 y h - y) s x y (add32 x w - x) color
