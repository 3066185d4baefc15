-- ===== src/Text/Format.antt =====
-- `CString::Format` for the conversions that the dialogs use: `%s`, `%d` and `% d`
-- (StudentManagementClient/CStudentInfoDlg.cpp and the other dialogs call it for every statement).
use school_information_manag.Prelude.{ℕ, List, [], ◌∷◌, ◌++◌, ◌==◌, if◌then◌else◌, Bytes, ℤ}
use school_information_manag.Text.{format_d, format_blank_d}

pub data Piece : Type 0 where
  lit : ℕ → Piece
  str num blank_num : Piece

pub data Arg : Type 0 where
  int : ℤ → Arg
  text : Bytes → Arg

-- Outside a conversion, after `%`, and after `% `.
pub data Mode : Type 0 where
  plain percent blank : Mode

abbrev pub emit : Mode → ℕ → List Piece
emit plain c = if c == b'%' then [] else lit c ∷ []
emit percent c = if c == b's' then str ∷ [] else if c == b'd' then num ∷ [] else []
emit blank c = if c == b'd' then blank_num ∷ [] else []

abbrev pub mode_after : Mode → ℕ → Mode
mode_after plain c = if c == b'%' then percent else plain
mode_after percent c = if c == 32 then blank else plain
mode_after blank c = plain

unfoldable pub pieces : Mode → Bytes → List Piece
pieces m [] = []
pieces m (c ∷ cs) = emit m c ++ pieces (mode_after m c) cs

-- Arguments that do not fit the conversions do not occur.
unfoldable pub render : List Piece → List Arg → Bytes
render (lit c ∷ ps) args = c ∷ render ps args
render (str ∷ ps) (text t ∷ args) = t ++ render ps args
render (num ∷ ps) (int z ∷ args) = format_d z ++ render ps args
render (blank_num ∷ ps) (int z ∷ args) = format_blank_d z ++ render ps args
render _ _ = []

unfoldable pub format : Bytes → List Arg → Bytes
unfolding pieces render
format fmt args = render (pieces plain fmt) args
