-- ===== src/Storage/Table/Lines.antt =====
-- The lines of a file are what successive calls of `fgets` give.
use week7_02_sql_index.Prelude.{
  ℕ, zero, suc, ◌-◌, false, none, some, [], ◌∷◌, ◌≡◌, refl, ◌==◌, leb, length, drop, arith,
  Bool-cases, inl, inr,
}
use week7_02_sql_index.Text.{Bytes}
use week7_02_sql_index.Storage.Csv.Defs.{max_row_len}
use week7_02_sql_index.Storage.Table.Defs.{take_line, fgets}
use week7_02_sql_index.Storage.Table.Scan.{lines_from, file_lines}

lines_from-take_line :
    (room c : ℕ) (cs : Bytes)
    → let line = take_line (suc room) (c ∷ cs) in
      lines_from (suc room) (c ∷ cs) ≡ line ∷ file_lines (drop (length line) (c ∷ cs))
unfolding lines_from take_line
lines_from-take_line zero c cs = elim (Bool-cases (c == b'\n')) [
  | inl newline ↦ rw newline refl
  | inr other ↦ rw other refl
]
lines_from-take_line (suc room) c [] = elim (Bool-cases (c == b'\n')) [
  | inl newline ↦ rw newline refl
  | inr other ↦ rw other (ground arith)
]
lines_from-take_line (suc room) c (d ∷ ds) =
    let more_room : leb (suc (suc room)) 1 ≡ false = ground arith in
    let fewer : suc (suc room) - 1 ≡ suc room = omega arith in
    elim (Bool-cases (c == b'\n')) [
      | inl newline ↦ rw newline refl
      | inr other ↦ rw (other, more_room, fewer, lines_from-take_line room d ds)
    ]

-- The lines of a file are its first line, which `fgets` reads, and the lines of what is left behind it;
-- a file from which `fgets` reads nothing has none.
pub file_lines-fgets :
    (file : Bytes)
    → file_lines file
      ≡ (elim (fgets file) [ none ↦ [] | some line ↦ line ∷ file_lines (drop (length line) file) ])
unfolding fgets lines_from
file_lines-fgets [] = refl
file_lines-fgets (c ∷ cs) = lines_from-take_line (max_row_len - 2) c cs
