-- ===== src/Vga/Pixels.antt =====
-- Where pixels go.
use pingu_os.Common.{
  ℕ, zero, suc, ◌+◌, ◌-◌, ◌*◌, ◌^◌, ◌≤◌, ◌<◌, ◌≡◌, inl, inr, refl, ◌∙◌, ap, arith, ◌&&◌, subst,
  ◌==◌, leb, ltb, if◌then◌else◌, add32,
}
use pingu_os.Port.{Ports}
use pingu_os.Vga.{
  Screen, Rgb, get_color_index, get_frame_buffer_segment, put_index, put_pixel, fill_row, fill_rows,
  fill_rectangle,
}
use pingu_os.Vga.Places.{
  Outside, inside, outside, segment_le, row_merge, rows_merge, nothing, no_rows, same_place,
  elsewhere, on_or_off, not_at,
}

module _ {P : Type 0} (io : Ports P) where
  -- The pixel in a frame buffer that begins at `start`.
  abbrev pub pixel : ℕ → Screen P → ℕ → ℕ → ℕ
  pixel start s x y = s.memory (start + 320 * y + x)

  -- The graphics controller names one frame buffer, whatever else is written to its ports.
  abbrev pub Steady : ℕ → Type 0
  Steady start = (p : P) → (get_frame_buffer_segment io p).0 ≡ start

  start_le : (start : ℕ) → Steady start → (p : P) → start ≤ 0xB8000
  unfolding get_frame_buffer_segment
  start_le start steady p =
      subst (λ n. n ≤ 0xB8000) (steady p) (segment_le (io.read (io.write p 0x3CE 0x06) 0x3CF).0)

  put_pixel_lem :
      (start : ℕ) (s : Screen P) (x y px py : ℕ) (color : Rgb)
      → Steady start
      → x < 2 ^ 32
      → y < 2 ^ 32
      → px < 320
      → py < 200
      → pixel start (put_pixel io s x y color) px py
        ≡ (if x == px && y == py then get_color_index color else pixel start s px py)
  unfolding put_pixel put_index
  put_pixel_lem start s x y px py color steady w w' h h' = elim (on_or_off x y) [
    | inl on ↦
        let low = start_le start steady s.ports in
        let addr : add32 (add32 start (320 * y)) x ≡ start + 320 * y + x =
          omega (arith, low, on.0, on.1) in
        rw (inside x y on.0 on.1, steady s.ports, addr, same_place start x y px py on.0 h) refl
    | inr out ↦ rw (outside x y w w' out, elsewhere x y px py h h' out) refl
  ]

  -- What one row of a rectangle leaves of a pixel.
  fill_row_lem :
      (rounds start : ℕ) (s : Screen P) (x y px py : ℕ) (color : Rgb)
      → Steady start
      → x + rounds < 2 ^ 32
      → y < 2 ^ 32
      → px < 320
      → py < 200
      → pixel start (fill_row io rounds s x y color) px py ≡ (
          if y == py && leb x px && ltb px (x + rounds)
          then get_color_index color
          else pixel start s px py)
  unfolding fill_row
  fill_row_lem zero start s x y px py color steady w w' h h' = rw (nothing (y == py) x px) refl
  fill_row_lem (suc rounds) start s x y px py color steady w w' h h' =
      fill_row_lem rounds start (put_pixel io s x y color) (x + 1) y px py color steady
        (omega (arith, w)) w' h h'
      ∙ ap
          (λ old.
            if y == py && leb (x + 1) px && ltb px (x + 1 + rounds)
            then get_color_index color
            else old)
          (put_pixel_lem start s x y px py color steady (omega (arith, w)) w' h h')
      ∙ row_merge x rounds y px py (get_color_index color) (pixel start s px py)

  fill_rows_lem :
      (rows start : ℕ) (s : Screen P) (x y columns px py : ℕ) (color : Rgb)
      → Steady start
      → x + columns < 2 ^ 32
      → y + rows < 2 ^ 32
      → px < 320
      → py < 200
      → pixel start (fill_rows io rows s x y columns color) px py ≡ (
          if leb x px && ltb px (x + columns) && leb y py && ltb py (y + rows)
          then get_color_index color
          else pixel start s px py)
  unfolding fill_rows
  fill_rows_lem zero start s x y columns px py color steady w w' h h' =
      rw (no_rows (leb x px && ltb px (x + columns)) y py) refl
  fill_rows_lem (suc rows) start s x y columns px py color steady w w' h h' =
      fill_rows_lem rows start (fill_row io columns s x y color) x (y + 1) columns px py color
        steady w (omega (arith, w')) h h'
      ∙ ap
          (λ old.
            if leb x px && ltb px (x + columns) && leb (y + 1) py && ltb py (y + 1 + rows)
            then get_color_index color
            else old)
          (fill_row_lem columns start s x y px py color steady w (omega (arith, w')) h h')
      ∙ rows_merge x columns rows y px py (get_color_index color) (pixel start s px py)

  -- Pixels write nothing outside the 64000 bytes of the frame buffer.
  put_pixel-Outside :
      (start : ℕ) (s : Screen P) (x y a : ℕ) (color : Rgb)
      → Steady start
      → x < 2 ^ 32
      → y < 2 ^ 32
      → Outside start a
      → (put_pixel io s x y color).memory a ≡ s.memory a
  unfolding put_pixel put_index
  put_pixel-Outside start s x y a color steady w w' far = elim (on_or_off x y) [
    | inl on ↦
        let low = start_le start steady s.ports in
        let addr : add32 (add32 start (320 * y)) x ≡ start + 320 * y + x =
          omega (arith, low, on.0, on.1) in
        rw (inside x y on.0 on.1, steady s.ports, addr, not_at start x y a on.0 on.1 far) refl
    | inr out ↦ rw (outside x y w w' out) refl
  ]

  fill_row-Outside :
      (rounds start : ℕ) (s : Screen P) (x y a : ℕ) (color : Rgb)
      → Steady start
      → x + rounds < 2 ^ 32
      → y < 2 ^ 32
      → Outside start a
      → (fill_row io rounds s x y color).memory a ≡ s.memory a
  unfolding fill_row
  fill_row-Outside zero start s x y a color steady w w' far = refl
  fill_row-Outside (suc rounds) start s x y a color steady w w' far =
      fill_row-Outside rounds start (put_pixel io s x y color) (x + 1) y a color steady
        (omega (arith, w)) w' far
      ∙ put_pixel-Outside start s x y a color steady (omega (arith, w)) w' far

  fill_rows-Outside :
      (rows start : ℕ) (s : Screen P) (x y columns a : ℕ) (color : Rgb)
      → Steady start
      → x + columns < 2 ^ 32
      → y + rows < 2 ^ 32
      → Outside start a
      → (fill_rows io rows s x y columns color).memory a ≡ s.memory a
  unfolding fill_rows
  fill_rows-Outside zero start s x y columns a color steady w w' far = refl
  fill_rows-Outside (suc rows) start s x y columns a color steady w w' far =
      fill_rows-Outside rows start (fill_row io columns s x y color) x (y + 1) columns a color
        steady w (omega (arith, w')) far
      ∙ fill_row-Outside columns start s x y a color steady w (omega (arith, w')) far

  -- A rectangle whose ends do not wrap, as unsigned numbers, sets every pixel of the screen that
  -- lies in it to the color's index, and leaves every other pixel of the screen as it was. What
  -- sticks out of the screen is not drawn: no byte outside the 320 * 200 of the frame buffer
  -- changes. The graphics controller names one frame buffer throughout.
  pub fill_rectangle-pixel :
      (start : ℕ) (s : Screen P) (x y width height px py : ℕ) (color : Rgb)
      → Steady start
      → x + width < 2 ^ 32
      → y + height < 2 ^ 32
      → px < 320
      → py < 200
      → let s' = fill_rectangle io s x y width height color in
        (pixel start s' px py ≡ (
          if leb x px && ltb px (x + width) && leb y py && ltb py (y + height)
          then get_color_index color
          else pixel start s px py))
        × ((a : ℕ) → Outside start a → s'.memory a ≡ s.memory a)
  unfolding fill_rectangle
  fill_rectangle-pixel start s x y width height px py color steady w w' h h' =
      let rows : add32 y height - y ≡ height = omega (arith, w') in
      let columns : add32 x width - x ≡ width = omega (arith, w) in
      rw (rows, columns)
        (
          fill_rows_lem height start s x y width px py color steady w w' h h',
          λ a far. fill_rows-Outside height start s x y width a color steady w w' far,
        )

  -- A rectangle that begins above the screen and reaches into it is not drawn at all.
  fill_rectangle-above :
      (s : Screen P) (x y width height : ℕ) (color : Rgb)
      → y < 2 ^ 32
      → 2 ^ 32 ≤ y + height
      → height < 2 ^ 32
      → fill_rectangle io s x y width height color ≡ s
  unfolding fill_rectangle fill_rows
  fill_rectangle-above s x y width height color word wraps small =
      let none_left : add32 y height - y ≡ 0 = omega (arith, word, wraps, small) in
      rw none_left refl
