-- ===== src/Client/Statements.antt =====
-- The statements that the dialogs of StudentManagementClient send, and reading them back.
pub mod Pages
pub mod Injection
pub mod Queries
use school_information_manag.Prelude.{ℕ, ◌≡◌, refl, some, List, length, Bytes}
use school_information_manag.Text.Format.{Arg, Mode, plain, pieces, format}
use school_information_manag.Text.Scan.{Fits, scan, scan-render}
use school_information_manag.Client.Dialog.{QueryRequest, query_request}

-- The request has this command, announces the length of its text, and its text reads back as these
-- arguments of the format.
abbrev pub Asks : ℕ → Bytes → List Arg → QueryRequest → Type 0
Asks cmd fmt args r =
    (r.hdr.n_cmd ≡ cmd)
    × (r.hdr.n_len ≡ length r.query)
    × (scan (pieces plain fmt) r.query ≡ some args)

pub query_request-Asks :
    (cmd : ℕ) (fmt : Bytes) (args : List Arg)
    → Fits (pieces plain fmt) args
    → Asks cmd fmt args (query_request cmd (format fmt args))
unfolding format
query_request-Asks cmd fmt args h = (refl, refl, scan-render (pieces plain fmt) args h)
