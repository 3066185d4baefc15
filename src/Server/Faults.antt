-- ===== src/Server/Faults.antt =====
-- The loop of DoTask (StudentManagementServer/CMySqlTask.cpp) on an empty request, and once the client
-- is gone.
use school_information_manag.Prelude.{
  ℕ, zero, suc, ◌^◌, ◌<◌, ◌≡◌, refl, ◌∙◌, none, List, [], ◌∷◌, arith, All, All-mono,
}
use school_information_manag.Proto.{PacketHdr, hdr_of_bytes, hdr_size, mysql_login, record_edit_err}
use school_information_manag.Proto.Requests.{
  Entity, student, class, course, choice, add, del, change_code, check_code, query_code,
}
use school_information_manag.Net.{Arrival, closed, recv}
use school_information_manag.Server.State.{
  MySql, Machine, dangling, double_free, fault, Task, next, stop, overlay, delete_buf,
}
use school_information_manag.Server.Handlers.{on_login, on_add, on_del, on_query, on_edit_check}
use school_information_manag.Server.Loop.{dispatch, serve_one, serve}
use school_information_manag.Server.Memory.{header_first, serve_one_header}

module _ {m : MySql} (env : Machine) (t : Task m) (later : List Arrival) where
  -- The requests that delete the buffer outside the test of the length.
  abbrev pub deleting_codes : Entity → List ℕ
  deleting_codes x =
      mysql_login ∷ change_code x add ∷ change_code x del ∷ query_code x ∷ check_code x ∷ []

  abbrev empty_hdr : ℕ → PacketHdr
  empty_hdr cmd = record { n_cmd = cmd; n_len = 0 }

  abbrev DispatchCrashes : ℕ → Type 0
  DispatchCrashes cmd =
      (cmd < 2 ^ 16)
      × (dispatch env (empty_hdr cmd) (record t { inbox = later })
          ≡ stop (fault double_free) (record t { inbox = later }))

  dispatch_empty : (x : Entity) → t.buf ≡ dangling → All DispatchCrashes (deleting_codes x)
  unfolding dispatch on_login on_add on_del on_query on_edit_check delete_buf
  dispatch_empty student h = (
    (omega arith, rw h),
    ((omega arith, rw h), ((omega arith, rw h), ((omega arith, rw h), ((omega arith, rw h), tt)))),
  )
  dispatch_empty class h = (
    (omega arith, rw h),
    ((omega arith, rw h), ((omega arith, rw h), ((omega arith, rw h), ((omega arith, rw h), tt)))),
  )
  dispatch_empty course h = (
    (omega arith, rw h),
    ((omega arith, rw h), ((omega arith, rw h), ((omega arith, rw h), ((omega arith, rw h), tt)))),
  )
  dispatch_empty choice h = (
    (omega arith, rw h),
    ((omega arith, rw h), ((omega arith, rw h), ((omega arith, rw h), ((omega arith, rw h), tt)))),
  )

  -- Once a request has been handled, and so the buffer deleted, a login, an ADD, a DEL, a QUERY or an
  -- EDIT_CHECK of length 0 deletes it again: undefined behaviour.
  pub serve_one_empty :
      (x : Entity)
      → t.buf ≡ dangling
      → All
          (λ cmd.
            serve_one env (header_first env t later (empty_hdr cmd))
            ≡ stop (fault double_free) (record t { inbox = later }))
          (deleting_codes x)
  serve_one_empty x h =
      All-mono {P = DispatchCrashes}
        (λ cmd p. serve_one_header env t later (empty_hdr cmd) p.0 (omega arith) ∙ p.1)
        (deleting_codes x) (dispatch_empty x h)

-- A header with an unknown command changes nothing.
dispatch_unknown :
    {m : MySql} (env : Machine) (hdr : PacketHdr) (t : Task m)
    → record_edit_err < hdr.n_cmd
    → dispatch env hdr t ≡ next t
unfolding dispatch
dispatch_unknown env hdr t h = ground arith

-- When the client has closed the connection, `recv` returns 0, which the loop does not take for an
-- end: while the old memory of the header is no known command, the task spins and no fuel is enough.
pub serve_closed :
    {m : MySql} (env : Machine) (t : Task m) (later : List Arrival) (fuel : ℕ)
    → record_edit_err < (hdr_of_bytes (overlay hdr_size [] (env.stale (closed ∷ later)))).n_cmd
    → serve env fuel (record t { inbox = closed ∷ later }) ≡ none
unfolding serve serve_one recv
serve_closed env t later zero h = refl
serve_closed env t later (suc fuel) h =
    rw
      (
        dispatch_unknown env (hdr_of_bytes (overlay hdr_size [] (env.stale (closed ∷ later))))
            (record t { inbox = closed ∷ later }) h,
        serve,
      )
      (serve_closed env t later fuel h)
