-- ===== src/Client/Statements/Injection.antt =====
-- What a quote in a field does: the dialogs put the fields into the statements as they are.
use school_information_manag.Prelude.{◌≡◌, ap, [], ◌∷◌, ◌++◌, append_assoc, Bytes, codes}
use school_information_manag.Proto.{class_add}
use school_information_manag.Text.Format.{text, format, pieces, render}
use school_information_manag.Client.ClassInfo.{ClassDlg}
use school_information_manag.Client.ClassInfo
use school_information_manag.Client.Dialog.{query_request}

-- Two different pairs of fields that give the same statement.
add_text-swap :
    (a b c : Bytes)
    → format ClassInfo.add_format (text (a ++ codes "', '" ++ b) ∷ text c ∷ [])
      ≡ format ClassInfo.add_format (text a ∷ text (b ++ codes "', '" ++ c) ∷ [])
unfolding format pieces render
add_text-swap a b c = simp append_assoc

-- A quote in a field changes what is asked: for all texts `a`, `b` and `c`, the ADD of a class whose
-- ID is `a', 'b` and whose name is `c` queues the very request that is queued for the ID `a` and the
-- name `b', 'c`, so the server cannot tell the two apart.
pub class_add_collides :
    (d : ClassDlg) (a b c : Bytes)
    → (ClassInfo.on_clicked_btn_add
        (record d { edit_class_id = a ++ codes "', '" ++ b; edit_class_name = c })).query_queue
      ≡ (ClassInfo.on_clicked_btn_add
          (record d { edit_class_id = a; edit_class_name = b ++ codes "', '" ++ c })).query_queue
unfolding ClassInfo.on_clicked_btn_add
class_add_collides d a b c =
    ap (λ (query : Bytes). d.query_queue ++ query_request class_add query ∷ [])
      (add_text-swap a b c)
