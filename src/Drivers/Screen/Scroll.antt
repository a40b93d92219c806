-- ===== src/Drivers/Screen/Scroll.antt =====
-- `new_line`: what the nested copying loops come to.
use kernel_r.Prelude.{
  ℕ, zero, suc, ◌+◌, ◌-◌, ◌<◌, ◌≡◌, refl, ◌∙◌, ap, ◌&&◌, ltb, leb, ◌==◌, if◌then◌else◌, arith,
}
use kernel_r.Drivers.Screen.{
  ScreenChar, Chars, Writer, put, buffer_width, copy_cols, copy_rows, blank_cols, clear_row,
  new_line,
}

copy_cols_lem :
    (rounds row col : ℕ) (chars : Chars) (r k : ℕ)
    → 0 < row
    → copy_cols rounds row col chars r k
      ≡ (if (r + 1 == row) && (leb col k && ltb k (col + rounds)) then chars row k else chars r k)
unfolding copy_cols
copy_cols_lem zero row col chars r k pos = ground arith
copy_cols_lem (suc rounds) row col chars r k pos =
    copy_cols_lem rounds row (col + 1) (put chars (row - 1) col (chars row col)) r k pos
    ∙ ground arith

copy_rows_lem :
    (rounds row : ℕ) (chars : Chars) (r k : ℕ)
    → 0 < row
    → k < buffer_width
    → copy_rows rounds row chars r k
      ≡ (if leb row (r + 1) && ltb (r + 1) (row + rounds) then chars (r + 1) k else chars r k)
unfolding copy_rows
copy_rows_lem zero row chars r k pos lt = ground arith
copy_rows_lem (suc rounds) row chars r k pos lt =
    let moved = copy_cols buffer_width row 0 chars in
    let here = copy_cols_lem buffer_width row 0 chars r k pos in
    let below = copy_cols_lem buffer_width row 0 chars (r + 1) k pos in
    let target = ap (λ (t : ℕ). chars t k) {x = row} {y = r + 1} in
    copy_rows_lem rounds (row + 1) moved r k (omega arith) lt ∙ ground (arith, here, below, target)

blank_cols_lem :
    (rounds row col : ℕ) (blank : ScreenChar) (chars : Chars) (r k : ℕ)
    → blank_cols rounds row col blank chars r k
      ≡ (if (row == r) && (leb col k && ltb k (col + rounds)) then blank else chars r k)
unfolding blank_cols
blank_cols_lem zero row col blank chars r k = ground arith
blank_cols_lem (suc rounds) row col blank chars r k =
    blank_cols_lem rounds row (col + 1) blank (put chars row col blank) r k ∙ ground arith

-- What a scroll shows: each row the one below it, the last one blanks of the current colour, and
-- the writer at its first column.
abbrev pub Scrolled : Writer → Writer → Type 0
Scrolled w w' =
    ((r k : ℕ) → r < 24 → k < 80 → w'.chars r k ≡ w.chars (r + 1) k)
    × ((k : ℕ)
        → k < 80
        → w'.chars 24 k ≡ record { ascii_character = 32; color_code = w.color_code })
    × (w'.column_position ≡ 0)
    × (w'.color_code ≡ w.color_code)

-- `new_line` scrolls the screen by one row.
pub new_line-Scrolled : (w : Writer) → Scrolled w (new_line w)
unfolding new_line clear_row
new_line-Scrolled w =
    let blank : ScreenChar = record { ascii_character = 32; color_code = w.color_code } in
    let moved = copy_rows 24 1 w.chars in
    (
      λ r k lt lt'.
          blank_cols_lem 80 24 0 blank moved r k
          ∙ ground (arith, copy_rows_lem 24 1 w.chars r k (omega arith) lt'),
      λ k lt. blank_cols_lem 80 24 0 blank moved 24 k ∙ ground arith,
      refl,
      refl,
    )
