-- ===== src/Listing.antt =====
-- The text file in which a query's result travels: CMySqlTask::DoTask writes it
-- (StudentManagementServer/CMySqlTask.cpp) and the dialogs' ReadFileAndDisplay read it. Both open it
-- in the text mode of the Windows C runtime, so the two translations are part of the format.
pub mod Lines
pub mod RoundTrip
use school_information_manag.Prelude.{
  ℕ, zero, suc, true, false, Option, none, some, List, [], ◌∷◌, ◌++◌, ◌==◌, if◌then◌else◌, length,
  Bytes,
}

abbrev pub tab : ℕ
tab = 9

abbrev pub lf : ℕ
lf = 10

abbrev pub cr : ℕ
cr = 13

abbrev pub ctrl_z : ℕ
ctrl_z = 26

-- A MYSQL_ROW: `none` is a NULL pointer, which is an SQL NULL.
abbrev pub Row : Type 0
Row = List (Option Bytes)

-- `file << row[i] << '\t'` for each field, then `file << '\n'`. Writing a NULL pointer is undefined
-- behaviour, which is `none` here.
unfoldable pub write_row : Row → Option Bytes
write_row [] = some (lf ∷ [])
write_row (none ∷ fields) = none
write_row (some field ∷ fields) = elim (write_row fields) [
  | none ↦ none
  | some text ↦ some (field ++ tab ∷ text)
]

-- The loop over `mysql_fetch_row`.
unfoldable pub write_rows : List Row → Option Bytes
write_rows [] = some []
write_rows (row ∷ rows) = elim (write_row row) [
  | none ↦ none
  | some text ↦ elim (write_rows rows) [ none ↦ none | some more ↦ some (text ++ more) ]
]

-- What an `ofstream` in text mode puts on the disk.
unfoldable pub text_out : Bytes → Bytes
text_out [] = []
text_out (c ∷ cs) = if c == lf then cr ∷ lf ∷ text_out cs else c ∷ text_out cs

-- What an `ifstream` in text mode makes of it: CR LF becomes LF, and Ctrl-Z ends the file.
unfoldable pub text_in : Bytes → Bytes
text_in [] = []
text_in (c ∷ []) = if c == ctrl_z then [] else c ∷ []
text_in (c ∷ d ∷ cs) =
    let rest = text_in (d ∷ cs) in
    let joined = text_in cs in
    if c == ctrl_z
    then []
    else if c == cr
    then (if d == lf then lf ∷ joined else c ∷ rest)
    else c ∷ rest

-- `std::getline(stream, line, d)`: the line and the rest of the stream, or `none` at its end. The
-- last line need not have its delimiter.
unfoldable pub getline : ℕ → Bytes → Option (Bytes × Bytes)
getline d [] = none
getline d (c ∷ cs) = elim (c == d) [
  | true ↦ some ([], cs)
  | false ↦ elim (getline d cs) [
    | none ↦ some (c ∷ [], [])
    | some (line, rest) ↦ some (c ∷ line, rest)
  ]
]

-- `while (std::getline(stream, line, d)) lines.push_back(line);` with fuel.
unfoldable pub getlines : ℕ → ℕ → Bytes → List Bytes
getlines zero d s = []
getlines (suc fuel) d s = elim (getline d s) [
  | none ↦ []
  | some (line, rest) ↦ line ∷ getlines fuel d rest
]

-- A line takes one byte at least, so this fuel is enough.
unfoldable pub lines_of : ℕ → Bytes → List Bytes
lines_of d s = getlines (suc (length s)) d s

-- `field.c_str()`: the text up to its first NUL.
unfoldable pub c_str : Bytes → Bytes
c_str [] = []
c_str (c ∷ cs) = if c == 0 then [] else c ∷ c_str cs

-- The first columns of the fields of a line, or none where the line has fewer fields.
unfoldable pub columns_of : ℕ → List Bytes → Option (List Bytes)
columns_of zero fields = some []
columns_of (suc n) [] = none
columns_of (suc n) (f ∷ fields) = elim (columns_of n fields) [
  | none ↦ none
  | some texts ↦ some (c_str f ∷ texts)
]

unfoldable pub display_lines : ℕ → List Bytes → List (List Bytes)
display_lines n [] = []
display_lines n (line ∷ lines) = elim (columns_of n (lines_of tab line)) [
  | none ↦ display_lines n lines
  | some texts ↦ texts ∷ display_lines n lines
]

-- The rows that ReadFileAndDisplay adds to its list control, for a dialog of `n` columns: the lines
-- with fewer than `n` fields are passed over.
unfoldable pub read_file_and_display : ℕ → Bytes → List (List Bytes)
read_file_and_display n file = display_lines n (lines_of lf (text_in file))
