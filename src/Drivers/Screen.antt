-- ===== src/Drivers/Screen.antt =====
-- src/drivers/vga_buffer.rs: the text screen of 25 rows of 80 cells, and its writer. `chars` gives
-- the cell of a row and a column, and `cursor` the two bytes last sent to the cursor's registers.
pub mod Scroll
pub mod Column
mod Tests
use kernel_r.Prelude.{
  ℕ, zero, suc, ◌+◌, ◌-◌, ◌*◌, ◌/◌, ◌%◌, Bool, true, false, ◌&&◌, ◌||◌, List, [], ◌∷◌, Run, ok,
  ◌>>=◌, ◌>>◌, require, ltb, leb, ◌==◌, if◌then◌else◌, same_bytes,
}

abbrev pub buffer_height : ℕ
buffer_height = 25

abbrev pub buffer_width : ℕ
buffer_width = 80

pub record ScreenChar : Type 0 where
  pub ascii_character : ℕ
  pub color_code : ℕ

abbrev pub Chars : Type 0
Chars = ℕ → ℕ → ScreenChar

pub record Writer : Type 0 where
  pub column_position : ℕ
  pub color_code : ℕ
  pub chars : Chars
  pub cursor : ℕ × ℕ

-- self.buffer.chars[row][col].write(c)
abbrev pub put : Chars → ℕ → ℕ → ScreenChar → Chars
put chars row col c r k = if (row == r) && (col == k) then c else chars r k

-- for col in 0..BUFFER_WIDTH of `new_line`, from `col` on.
unfoldable pub copy_cols : ℕ → ℕ → ℕ → Chars → Chars
copy_cols zero row col chars = chars
copy_cols (suc rounds) row col chars =
    copy_cols rounds row (col + 1) (put chars (row - 1) col (chars row col))

-- for row in 1..BUFFER_HEIGHT, from `row` on.
unfoldable pub copy_rows : ℕ → ℕ → Chars → Chars
copy_rows zero row chars = chars
copy_rows (suc rounds) row chars = copy_rows rounds (row + 1) (copy_cols buffer_width row 0 chars)

-- for col in 0..BUFFER_WIDTH of `clear_row`, from `col` on.
unfoldable pub blank_cols : ℕ → ℕ → ℕ → ScreenChar → Chars → Chars
blank_cols zero row col blank chars = chars
blank_cols (suc rounds) row col blank chars =
    blank_cols rounds row (col + 1) blank (put chars row col blank)

unfoldable pub clear_row : Writer → ℕ → Writer
clear_row w row = record w {
  chars =
      blank_cols buffer_width row 0 (record { ascii_character = 32; color_code = w.color_code })
        w.chars;
}

unfoldable pub new_line : Writer → Writer
new_line w =
    let scrolled = record w { chars = copy_rows (buffer_height - 1) 1 w.chars } in
    record (clear_row scrolled (buffer_height - 1)) { column_position = 0 }

-- `pos as u16`, sent as its two bytes.
unfoldable pub update_cursor : Writer → Writer
update_cursor w =
    let pos = ((buffer_height - 1) * buffer_width + w.column_position) % 65536 in
    record w { cursor = (pos / 256 % 256, pos % 256) }

-- for row in 0..BUFFER_HEIGHT { self.clear_row(row); }
unfoldable pub clear_rows : ℕ → ℕ → Writer → Writer
clear_rows zero row w = w
clear_rows (suc rounds) row w = clear_rows rounds (row + 1) (clear_row w row)

unfoldable pub clear : Writer → Writer
clear w = update_cursor (record (clear_rows buffer_height 0 w) { column_position = 0 })

-- The last arm of `write_byte`. A column out of range panics.
abbrev pub write_char : Writer → ℕ → Run Writer
write_char w byte = do
  require (ltb w.column_position buffer_width)
  ok (record w {
    chars =
        put w.chars (buffer_height - 1) w.column_position
          (record { ascii_character = byte; color_code = w.color_code });
    column_position = w.column_position + 1;
  })

unfoldable pub write_byte : Writer → ℕ → Run Writer
write_byte w byte =
    if byte == 10
    then ok (new_line w)
    else if byte == 13
    then ok (record w { column_position = 0 })
    else if byte == 8
    then (if ltb 0 w.column_position
        then ok (record w { column_position = w.column_position - 1 })
        else ok w)
    else if byte == 12
    then ok (clear w)
    else write_char (if leb buffer_width w.column_position then new_line w else w) byte

-- What `write_string` makes of a byte: the control bytes and printable ASCII, and else a block.
abbrev pub shown : ℕ → ℕ
shown byte =
    if (byte == 10) || (byte == 13) || (byte == 8) || (byte == 12)
    then byte
    else if leb 32 byte && leb byte 126
    then byte
    else 254

unfoldable pub write_bytes : List ℕ → Writer → Run Writer
write_bytes [] w = ok w
write_bytes (byte ∷ bytes) w = do w' ← write_byte w (shown byte); write_bytes bytes w'

-- "\x1b[2J\x1b[H" and "\x1b[2J".
abbrev pub clears_screen : List ℕ → Bool
clears_screen s =
    same_bytes s (27 ∷ 91 ∷ 50 ∷ 74 ∷ 27 ∷ 91 ∷ 72 ∷ []) || same_bytes s (27 ∷ 91 ∷ 50 ∷ 74 ∷ [])

unfoldable pub write_string : Writer → List ℕ → Run Writer
write_string w s =
    let written = (do w' ← write_bytes s w; ok (update_cursor w')) in
    if clears_screen s then ok (clear w) else written
