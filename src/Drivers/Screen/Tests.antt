-- ===== src/Drivers/Screen/Tests.antt =====
-- A writer at the end of a row.
use kernel_r.Prelude.{◌≤◌, ◌≡◌, [], ◌∷◌, ok, arith}
use kernel_r.Drivers.Screen.{Writer, write_string, new_line}
use kernel_r.Drivers.Screen.Scroll.{Scrolled, new_line-Scrolled}
use kernel_r.Drivers.Screen.Column.{ShowsCursor, write_string-ShowsCursor}

abbrev full_row : Writer
full_row = record {
  column_position = 80;
  color_code = 14;
  chars = λ r k. record { ascii_character = r; color_code = 7 };
  cursor = (0, 0);
}

new_line-Scrolled_example : Scrolled full_row (new_line full_row)
new_line-Scrolled_example = new_line-Scrolled full_row

write_string-ShowsCursor_example :
    (w' : Writer) × (write_string full_row (65 ∷ 10 ∷ 200 ∷ []) ≡ ok w')
    × (w'.column_position ≤ 80)
    × ShowsCursor w'
write_string-ShowsCursor_example =
    write_string-ShowsCursor full_row (65 ∷ 10 ∷ 200 ∷ []) (omega arith)
