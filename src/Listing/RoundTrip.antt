-- ===== src/Listing/RoundTrip.antt =====
-- The file of DoTask (StudentManagementServer/CMySqlTask.cpp) and its reading by ReadFileAndDisplay.
use school_information_manag.Prelude.{
  ℕ, zero, suc, ◌≤◌, ◌≡◌, refl, sym, ap, ◌≢◌, some, List, [], ◌∷◌, ◌++◌, map, append_assoc, arith,
  length, take, All, All-append, Bytes, All-mono,
}
use school_information_manag.Listing.{
  tab, lf, cr, ctrl_z, Row, write_row, write_rows, text_out, text_in, lines_of, c_str, columns_of,
  display_lines, read_file_and_display,
}
use school_information_manag.Listing.Lines.{Lacks, terminated, lines_of-terminated}

text_in-crlf : (s : Bytes) → text_in (cr ∷ lf ∷ s) ≡ lf ∷ text_in s
unfolding text_in
text_in-crlf s = refl

-- The first byte on the disk is no LF, so a CR before it stays a CR.
text_in-cr : (s : Bytes) → text_in (cr ∷ text_out s) ≡ cr ∷ text_in (text_out s)
unfolding text_in text_out
text_in-cr [] = refl
text_in-cr (c ∷ s) = ground arith

text_in-plain : (c : ℕ) (s : Bytes) → c ≢ ctrl_z → c ≢ cr → text_in (c ∷ s) ≡ c ∷ text_in s
unfolding text_in
text_in-plain c [] h k = ground arith
text_in-plain c (d ∷ s) h k = ground arith

text_in_nil : text_in [] ≡ []
unfolding text_in
text_in_nil = refl

-- The text mode of the C runtime gives back every text without Ctrl-Z.
pub text_in-text_out : (s : Bytes) → Lacks ctrl_z s → text_in (text_out s) ≡ s
unfolding text_out
text_in-text_out [] h = text_in_nil
text_in-text_out (c ∷ s) h = ground (
  arith,
  text_in-crlf (text_out s),
  text_in-cr s,
  text_in-plain c (text_out s),
  text_in-text_out s h.1,
)

-- The texts of a row, where no field is NULL.
abbrev pub row_of : List Bytes → Row
row_of = map some

write_row-row_of :
    (fields : List Bytes) → write_row (row_of fields) ≡ some (terminated tab fields ++ lf ∷ [])
unfolding write_row terminated
write_row-row_of [] = refl
write_row-row_of (f ∷ fields) =
    rw (write_row-row_of fields)
      (ap some (sym (append_assoc f (tab ∷ terminated tab fields) (lf ∷ []))))

-- The whole file is the lines, each the fields of a row.
unfoldable pub file_text : List (List Bytes) → Bytes
file_text rows = terminated lf (map (terminated tab) rows)

pub write_rows-row_of :
    (rows : List (List Bytes)) → write_rows (map row_of rows) ≡ some (file_text rows)
unfolding write_rows file_text terminated
write_rows-row_of [] = refl
write_rows-row_of (fields ∷ rows) =
    rw (write_row-row_of fields, write_rows)
      (rw (write_rows-row_of rows)
        (ap some (append_assoc (terminated tab fields) (lf ∷ []) (file_text rows))))

-- What the format can carry: no tab, no line end, no NUL and no Ctrl-Z.
pub record IsPlain (c : ℕ) : Type 0 where
  pub no_tab : c ≢ tab
  pub no_lf : c ≢ lf
  pub no_nul : c ≢ 0
  pub no_ctrl_z : c ≢ ctrl_z

-- Rows of `n` plain fields at least.
abbrev pub IsTable : ℕ → List (List Bytes) → Type 0
IsTable n = All (λ fields. (n ≤ length fields) × All (All IsPlain) fields)

Lacks-terminated :
    (d e : ℕ) (ps : List Bytes) → e ≢ d → All (Lacks e) ps → Lacks e (terminated d ps)
unfolding terminated
Lacks-terminated d e [] h k = tt
Lacks-terminated d e (p ∷ ps) h k =
    All-append (λ c. c ≢ e) p (d ∷ terminated d ps) k.0
      ((λ q. h (sym q)), Lacks-terminated d e ps h k.1)

Lacks-fields :
    (d : ℕ)
    → ((c : ℕ) → IsPlain c → c ≢ d)
    → (fields : List Bytes) → All (All IsPlain) fields
    → All (Lacks d) fields
Lacks-fields d f fields = All-mono (λ p. All-mono f p) fields

module _ (n : ℕ) (d : ℕ) (f : (c : ℕ) → IsPlain c → c ≢ d) (sep : d ≢ tab) where
  Lacks-lines :
      (rows : List (List Bytes)) → IsTable n rows → All (Lacks d) (map (terminated tab) rows)
  Lacks-lines [] h = tt
  Lacks-lines (fields ∷ rows) h =
      (Lacks-terminated tab d fields sep (Lacks-fields d f fields h.0.1), Lacks-lines rows h.1)

c_str-plain : (p : Bytes) → All IsPlain p → c_str p ≡ p
unfolding c_str
c_str-plain [] h = refl
c_str-plain (c ∷ p) h = ground (arith, c_str-plain p h.1, h.0.no_nul)

columns_of-plain :
    (n : ℕ) (fields : List Bytes)
    → n ≤ length fields
    → All (All IsPlain) fields
    → columns_of n fields ≡ some (take n fields)
unfolding columns_of
columns_of-plain zero fields h p = refl
columns_of-plain (suc n) [] h p = absurd (omega arith)
columns_of-plain (suc n) (f ∷ fields) h p =
    rw (columns_of-plain n fields (omega arith) p.1, c_str-plain f p.0)

columns_of-line :
    (n : ℕ) (fields : List Bytes)
    → n ≤ length fields
    → All (All IsPlain) fields
    → columns_of n (lines_of tab (terminated tab fields)) ≡ some (take n fields)
columns_of-line n fields h p =
    rw (lines_of-terminated tab fields (Lacks-fields tab (λ c q. q.no_tab) fields p))
      (columns_of-plain n fields h p)

display_lines-table :
    (n : ℕ) (rows : List (List Bytes))
    → IsTable n rows
    → display_lines n (map (terminated tab) rows) ≡ map (take n) rows
unfolding display_lines
display_lines-table n [] h = refl
display_lines-table n (fields ∷ rows) h =
    rw (columns_of-line n fields h.0.0 h.0.1, display_lines)
      (ap (◌∷◌ (take n fields)) (display_lines-table n rows h.1))

Lacks-file_text :
    (n : ℕ) (rows : List (List Bytes)) → IsTable n rows → Lacks ctrl_z (file_text rows)
unfolding file_text
Lacks-file_text n rows h =
    Lacks-terminated lf ctrl_z (map (terminated tab) rows) (omega arith)
      (Lacks-lines n ctrl_z (λ c p. p.no_ctrl_z) (omega arith) rows h)

-- What a dialog of `n` columns shows of the file that the server writes for a table of rows with `n`
-- fields at least is the first `n` fields of every row, in order.
pub read_file_and_display-write_rows :
    (n : ℕ) (rows : List (List Bytes))
    → IsTable n rows
    → (file : Bytes) × (write_rows (map row_of rows) ≡ some file)
      × (read_file_and_display n (text_out file) ≡ map (take n) rows)
unfolding read_file_and_display
read_file_and_display-write_rows n rows h = (
  file_text rows,
  write_rows-row_of rows,
  rw (text_in-text_out (file_text rows) (Lacks-file_text n rows h)) (
      unfold file_text in
      rw
        (lines_of-terminated lf (map (terminated tab) rows)
          (Lacks-lines n lf (λ c p. p.no_lf) (omega arith) rows h))
        (display_lines-table n rows h)),
)
