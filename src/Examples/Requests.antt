-- ===== src/Examples/Requests.antt =====
-- Requests at the server, one by one.
use school_information_manag.Prelude.{
  ◌≡◌, ◌≢◌, refl, arith, Option, none, some, List, [], ◌∷◌, All, codes, pos, if◌then◌else◌, is_zero,
}
use school_information_manag.Proto.{stu_add, hdr_of_bytes}
use school_information_manag.Proto.Requests.{
  student, class, course, add, edit, query_code, query_err_code, query_null_code,
}
use school_information_manag.Net.{closed, failed, outbox_of}
use school_information_manag.Listing.{Row}
use school_information_manag.Server.State.{
  disconnected, Task, unset, dangling, next, stop, fault, double_free,
}
use school_information_manag.Server.Loop.{serve_one, serve}
use school_information_manag.Server.Session.{Ask, incoming, conn_after, replies, serve_session}
use school_information_manag.Server.Replies.{request, answered}
use school_information_manag.Server.Queries.{serve_query_answers}
use school_information_manag.Server.Memory.{header_first, serve_one_frees_once}
use school_information_manag.Server.Faults.{deleting_codes, serve_one_empty, serve_closed}
use school_information_manag.Examples.Fixtures.{db, machine, task, statement}

abbrev two_rows : Option (List Row)
two_rows = some ((some (codes "2") ∷ []) ∷ [])

abbrev spinning : Task (db (pos 0) none)
spinning = record (task (pos 0) none dangling) { inbox = closed ∷ [] }

serve_one_frees_once_example :
    serve_one machine
      (header_first machine (task (pos 0) none dangling) [] (record { n_cmd = stu_add; n_len = 5 }))
    ≢ stop (fault double_free) spinning
serve_one_frees_once_example =
    serve_one_frees_once machine (task (pos 0) none dangling) []
      (record { n_cmd = stu_add; n_len = 5 }) spinning (omega arith) (omega arith) (omega arith)

serve_one_empty_example :
    All
      (λ cmd.
        serve_one machine
          (header_first machine (task (pos 0) none dangling) [] (record { n_cmd = cmd; n_len = 0 }))
        ≡ stop (fault double_free) (task (pos 0) none dangling))
      (deleting_codes machine (task (pos 0) none dangling) [] student)
serve_one_empty_example = serve_one_empty machine (task (pos 0) none dangling) [] student refl

serve_closed_example : serve machine 100 spinning ≡ none
unfolding hdr_of_bytes
serve_closed_example = serve_closed machine (task (pos 0) none dangling) [] 100 (omega arith)

serve_query_answers_example :
    serve_one machine (request machine (task (pos 1) none unset) [] (query_code course) statement)
    ≡ next (
        if is_zero (pos 1)
        then answered machine (task (pos 1) none unset) [] (statement ∷ []) (query_null_code course)
        else answered machine (task (pos 1) none unset) [] (statement ∷ []) (query_err_code course))
serve_query_answers_example =
    serve_query_answers machine (task (pos 1) none unset) [] statement (omega arith) (omega arith)
      course refl

abbrev two_asks : List Ask
two_asks =
    record { entity = student; change = add; text = statement }
    ∷ record { entity = class; change = edit; text = codes "UPDATE" }
    ∷ []

serve_session_example :
    (t' : Task (db (pos 0) none)) × (serve machine 3
        (record (task (pos 0) none unset) { inbox = incoming two_asks (failed 10054 ∷ []) })
      ≡ some (disconnected, t'))
    × (t'.conn ≡ conn_after (db (pos 0) none) [] two_asks)
    × (t'.out ≡ outbox_of (replies (db (pos 0) none) [] two_asks))
serve_session_example =
    serve_session machine two_asks (task (pos 0) none unset) 10054 [] []
      ((omega arith, omega arith), ((omega arith, omega arith), tt)) refl
