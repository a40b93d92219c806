-- ===== src/Drivers/Screen/Column.antt =====
-- The column of the writer, and the cursor.
use kernel_r.Prelude.{
  ℕ, ◌+◌, ◌*◌, ◌≤◌, ◌<◌, ◌≡◌, refl, Bool-cases, inl, inr, List, [], ◌∷◌, Run, ok, ltb, leb, lt→ltb,
  ◌==◌, arith,
}
use kernel_r.Drivers.Screen.{
  Writer, new_line, clear, update_cursor, write_char, write_byte, write_bytes, write_string, shown,
  clears_screen,
}

-- A run that does not panic and leaves the column on the screen or just behind it.
abbrev pub KeepsColumn : Run Writer → Type 0
KeepsColumn run = (w' : Writer) × (run ≡ ok w') × (w'.column_position ≤ 80)

write_char-KeepsColumn :
    (w : Writer) (byte : ℕ) → w.column_position < 80 → KeepsColumn (write_char w byte)
write_char-KeepsColumn w byte lt = rw (lt→ltb w.column_position 80 lt) (_, refl, omega (arith, lt))

new_line_column : (w : Writer) → (new_line w).column_position ≡ 0
unfolding new_line
new_line_column w = refl

clear_column : (w : Writer) → (clear w).column_position ≡ 0
unfolding clear update_cursor
clear_column w = refl

write_byte-KeepsColumn :
    (w : Writer) (byte : ℕ) → w.column_position ≤ 80 → KeepsColumn (write_byte w byte)
unfolding write_byte
write_byte-KeepsColumn w byte le = elim (Bool-cases (byte == 10)) [
  | inl e ↦ rw e (new_line w, refl, omega (arith, new_line_column w))
  | inr n1 ↦ elim (Bool-cases (byte == 13)) [
    | inl e ↦ rw (n1, e) (_, refl, omega arith)
    | inr n2 ↦ elim (Bool-cases (byte == 8)) [
      | inl e ↦ elim (Bool-cases (ltb 0 w.column_position)) [
        | inl some_left ↦ rw (n1, n2, e, some_left) (_, refl, omega arith)
        | inr none_left ↦ rw (n1, n2, e, none_left) (w, refl, le)
      ]
      | inr n3 ↦ elim (Bool-cases (byte == 12)) [
        | inl e ↦ rw (n1, n2, n3, e) (clear w, refl, omega (arith, clear_column w))
        | inr n4 ↦ elim (Bool-cases (leb 80 w.column_position)) [
          | inl full ↦
              rw (n1, n2, n3, n4, full)
                (write_char-KeepsColumn (new_line w) byte (omega (arith, new_line_column w)))
          | inr room ↦ rw (n1, n2, n3, n4, room) (write_char-KeepsColumn w byte (ground arith))
        ]
      ]
    ]
  ]
]

write_bytes-KeepsColumn :
    (bytes : List ℕ) (w : Writer) → w.column_position ≤ 80 → KeepsColumn (write_bytes bytes w)
unfolding write_bytes
write_bytes-KeepsColumn [] w le = (w, refl, le)
write_bytes-KeepsColumn (byte ∷ bytes) w le =
    let (w', e, le') = write_byte-KeepsColumn w (shown byte) le in
    rw e (write_bytes-KeepsColumn bytes w' le')

-- The hardware's cursor stands where the writer is, in the last row.
abbrev pub ShowsCursor : Writer → Type 0
ShowsCursor w = w.cursor.0 * 256 + w.cursor.1 ≡ 24 * 80 + w.column_position

-- From a column of at most 80, whatever the string, `write_string` does not panic, ends with a
-- column of at most 80, and leaves the hardware's cursor at that column of the last row.
pub write_string-ShowsCursor :
    (w : Writer) (s : List ℕ)
    → w.column_position ≤ 80
    → (w' : Writer) × (write_string w s ≡ ok w') × (w'.column_position ≤ 80) × ShowsCursor w'
unfolding write_string update_cursor clear
write_string-ShowsCursor w s le = elim (Bool-cases (clears_screen s)) [
  | inl clears ↦ rw clears (clear w, refl, omega (arith, clear_column w), refl)
  | inr text ↦
      (let (w', e, le') = write_bytes-KeepsColumn s w le in
        rw (text, e) (update_cursor w', refl, le', omega (arith, le')))
]
